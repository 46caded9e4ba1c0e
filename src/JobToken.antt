-- ===== src/JobToken.antt =====
-- Signer of services/shared/go/jobtoken/jobtoken.go, on the bytes of the token. Times are in
-- nanoseconds, a lifetime is not negative.
pub mod Decimal
pub mod Signed
pub mod Middleware
pub mod Fixtures
mod Tests
use zagforge_mvp.Prelude.{
  ℕ, ◌+◌, ◌/◌, Bool, true, false, not, Option, none, some, List, [], ◌∷◌, ◌++◌, ℤ, pos, negsuc, ltb,
  ◌==◌, ◌&&◌, if◌then◌else◌, All, ◌≡◌,
}
use zagforge_mvp.Prelude.Bytes.{Bytes, bytes_eq}
use zagforge_mvp.JobToken.Decimal.{format_int, parse_int}

abbrev pub colon : ℕ
colon = 58

-- HMAC-SHA256 of a text under a key, in hexadecimal digits: none of them is a colon.
pub record Mac : Type 0 where
  pub mac : (key payload : Bytes) → Bytes
  pub no_colon : (key payload : Bytes) → All (λ c. (c == colon) ≡ false) (mac key payload)

pub data Verdict : Type 0 where
  valid invalid_token token_expired : Verdict

pub record Signer : Type 0 where
  pub key : Bytes
  pub prev_key : Option Bytes
  pub ttl : ℕ

-- `t.Unix()`
abbrev pub seconds : ℕ → ℕ
seconds t = t / 1000000000

-- strings.SplitN(token, ":", 2): the second part, if there are two
pub after_colon : Bytes → Option Bytes
after_colon [] = none
after_colon (c ∷ s) = if c == colon then some s else after_colon s

-- `time.Now().Unix() > expiry`
abbrev pub late : ℕ → ℤ → Bool
late now (pos e) = ltb e (seconds now)
late now (negsuc e) = true

-- WithPreviousKey
unfoldable pub with_previous_key : Bytes → Signer → Signer
with_previous_key prev s = record s { prev_key = some prev }

module _ (m : Mac) where
  open m use {mac}

  -- sign
  pub sign_with : Bytes → Bytes → ℤ → Bytes
  sign_with key job expiry = mac key (job ++ colon ∷ format_int expiry) ++ colon ∷ format_int expiry

  -- Signer.Sign at the time `now`
  pub sign : Signer → ℕ → Bytes → Bytes
  sign s now job = sign_with s.key job (pos (seconds (now + s.ttl)))

  -- the end of validate, with the parsed expiry
  pub check_expiry : Bytes → ℕ → Bytes → Bytes → Option ℤ → Verdict
  check_expiry key now job token none = invalid_token
  check_expiry key now job token (some e) =
      if not (bytes_eq token (sign_with key job e))
      then invalid_token
      else if late now e
      then token_expired
      else valid

  -- validate, with the text behind the first colon
  pub check_text : Bytes → ℕ → Bytes → Bytes → Option Bytes → Verdict
  check_text key now job token none = invalid_token
  check_text key now job token (some text) = check_expiry key now job token (parse_int text)

  pub validate_with : Bytes → ℕ → Bytes → Bytes → Verdict
  validate_with key now job token = check_text key now job token (after_colon token)

  -- errors.Is(err, ErrInvalidToken)
  pub fall_back : Option Bytes → ℕ → Bytes → Bytes → Verdict → Verdict
  fall_back (some prev) now job token invalid_token = validate_with prev now job token
  fall_back prev now job token v = v

  -- Signer.Validate at the time `now`
  pub validate : Signer → ℕ → Bytes → Bytes → Verdict
  validate s now job token = fall_back s.prev_key now job token (validate_with s.key now job token)
