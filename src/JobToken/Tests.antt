-- ===== src/JobToken/Tests.antt =====
-- Tokens of a small signer, and a completion that carries one.
use zagforge_mvp.Prelude.{ℕ, ◌≡◌, refl, none, some, ◌++◌, pos, arith}
use zagforge_mvp.Prelude.Bytes.{bytes_of}
use zagforge_mvp.JobToken.{valid, token_expired, Signer, sign, validate}
use zagforge_mvp.JobToken.Fixtures.{toy}
use zagforge_mvp.JobToken.Signed.{by_previous, validate-sign, validate-Accepted}
use zagforge_mvp.JobToken.Middleware.{
  AuthEnv, Request, CallbackEffect, serve_start, serve_complete, callbacks-authorized,
}
use zagforge_mvp.Jobs.Fixtures.{start_db, callback_env, request}

-- a lifetime of an hour
abbrev old_signer : Signer
old_signer = record { key = bytes_of "old"; prev_key = none; ttl = 3600000000000 }

abbrev new_signer : Signer
new_signer = record { key = bytes_of "new"; prev_key = some (bytes_of "old"); ttl = 3600000000000 }

abbrev issued : ℕ
issued = 1700000000000000000

abbrev hour_later : ℕ
hour_later = 1700003600000000000

abbrev too_late : ℕ
too_late = 1700003601000000000

validate-sign_example :
    validate toy old_signer hour_later (bytes_of "7") (sign toy old_signer issued (bytes_of "7"))
    ≡ valid
validate-sign_example = validate-sign toy old_signer issued hour_later (bytes_of "7") (omega arith)

expired :
    validate toy old_signer too_late (bytes_of "7") (sign toy old_signer issued (bytes_of "7"))
    ≡ token_expired
expired = validate-sign toy old_signer issued too_late (bytes_of "7") (omega arith)

-- a token of the previous key
validate-Accepted_example :
    validate toy new_signer hour_later (bytes_of "7") (sign toy old_signer issued (bytes_of "7"))
    ≡ valid
unfolding sign
validate-Accepted_example =
    (validate-Accepted toy hour_later (bytes_of "7") new_signer
        (sign toy old_signer issued (bytes_of "7"))).1
      (by_previous (bytes_of "old") (pos 1700003600) refl (omega arith) refl refl)

abbrev auth_env : AuthEnv
auth_env = record {
  now = hour_later;
  decode_job_id = λ body. some "7";
  decode_start = λ body. some "7";
  decode_complete = λ body. some request;
}

abbrev completion : Request
completion = record {
  authorization = bytes_of "Bearer " ++ sign toy new_signer issued (bytes_of "7");
  body = some (bytes_of "{}");
}

callbacks-authorized_example :
    CallbackEffect toy new_signer hour_later callback_env completion start_db
      (serve_start toy new_signer auth_env callback_env completion start_db).1
    × CallbackEffect toy new_signer hour_later callback_env completion start_db
        (serve_complete toy new_signer auth_env callback_env completion start_db).1
callbacks-authorized_example =
    callbacks-authorized toy new_signer auth_env callback_env completion start_db
