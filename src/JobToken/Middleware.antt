-- ===== src/JobToken/Middleware.antt =====
-- Auth of api/internal/middleware/jobtoken/jobtoken.go in front of the two callbacks of
-- api/internal/handler/callback/. The body that a request shows is what its reader yields.
use zagforge_mvp.Prelude.{
  ℕ, String, ◌≡◌, refl, sym, ◌∙◌, arith, subst, Bool, true, false, Option, none, some, [], ◌∷◌,
  ◌++◌, take, str_eq, Option-cases, inl, inr,
}
use zagforge_mvp.Prelude.Flow.{
  Act, ◌>>=◌, ◌>>◌, pure, require, stop_if, stop_unless, get, modify, run,
}
use zagforge_mvp.Prelude.Outcome.{
  Ensures, Ensures-pure, Ensures-stop_if, Ensures-stop_unless, Ensures-require, Ensures-check,
  Ensures-get, Ensures-modify, run_meets,
}
use zagforge_mvp.Prelude.Bytes.{Bytes, bytes_of, cut_prefix, cut_prefix_sound}
use zagforge_mvp.JobToken.{Mac, Verdict, valid, invalid_token, token_expired, Signer, validate}
use zagforge_mvp.JobToken.Signed.{Accepted, validate-Accepted}
use zagforge_mvp.Jobs.Model.{Db}
use zagforge_mvp.Jobs.Callback.{Reply, CallbackEnv, CompleteRequest, start, complete}
use zagforge_mvp.Jobs.Callback.Start.{StartOutcome, start-outcome}
use zagforge_mvp.Jobs.Callback.Effect.{CompleteOutcome, complete-outcome}

pub data AuthErr : Type 0 where
  missing_token refused_token invalid_body missing_job_id : AuthErr

-- The parts of a request that the middleware reads; a body is `none` when its reader fails.
pub record Request : Type 0 where
  pub authorization : Bytes
  pub body : Option Bytes

pub data Answer : Type 0 where
  denied : ℕ → AuthErr → Answer
  answered : Reply → Answer

-- 1 MB
abbrev pub max_body_bytes : ℕ
max_body_bytes = 1048576

abbrev or_empty : Option Bytes → Bytes
or_empty none = []
or_empty (some s) = s

pub extract_bearer : Request → Bytes
extract_bearer r = or_empty (cut_prefix (bytes_of "Bearer ") r.authorization)

abbrev is_empty : Bytes → Bool
is_empty [] = true
is_empty (c ∷ s) = false

abbrev is_valid : Verdict → Bool
is_valid valid = true
is_valid _ = false

-- io.ReadAll of the limited reader
pub read_limited : Option Bytes → Option Bytes
read_limited none = none
read_limited (some s) = some (take max_body_bytes s)

-- What one call takes from outside: the clock, and encoding/json on the two request types.
pub record AuthEnv : Type 0 where
  pub now : ℕ
  pub decode_job_id : Bytes → Option String
  pub decode_start : Bytes → Option String
  pub decode_complete : Bytes → Option CompleteRequest

module _ (m : Mac) (s : Signer) (env : AuthEnv) where
  open env use {now, decode_job_id, decode_start, decode_complete}

  -- Auth: the job id that goes into the context, and the body that is set again
  auth : Request → Act Db Answer (String × Bytes)
  auth r = do
    stop_if (is_empty (extract_bearer r)) (denied 401 missing_token)
    body ← require (read_limited r.body) (denied 400 invalid_body)
    job_id ← require (decode_job_id body) (denied 400 missing_job_id)
    stop_if (str_eq job_id "") (denied 400 missing_job_id)
    stop_unless (is_valid (validate m s now (bytes_of job_id) (extract_bearer r)))
        (denied 401 refused_token)
    pure (job_id, body)

  -- next.ServeHTTP
  serve_next : (Db → Reply × Db) → Act Db Answer Answer
  serve_next next = do db ← get; modify (λ _. (next db).1); pure (answered (next db).0)

  behind_auth : (String → Bytes → Db → Reply × Db) → Request → Act Db Answer Answer
  behind_auth next r = do passed ← auth r; serve_next (next passed.0 passed.1)

  -- POST /internal/jobs/start
  pub serve_start : CallbackEnv → Request → Db → Answer × Db
  serve_start cb r = run (behind_auth (λ job_id body. start cb job_id (decode_start body)) r)

  -- POST /internal/jobs/complete
  pub serve_complete : CallbackEnv → Request → Db → Answer × Db
  serve_complete cb r = run (
      behind_auth (λ job_id body. complete cb job_id (decode_complete (take max_body_bytes body)))
        r)

-- the request carries a bearer token that the signer accepts for the job
abbrev pub TokenFor : Mac → Signer → ℕ → Request → String → Type 0
TokenFor m s now r job_id =
    (token : Bytes) × (r.authorization ≡ bytes_of "Bearer " ++ token)
    × Accepted m s now (bytes_of job_id) token

-- What a callback does to the database: nothing, or what the handler behind the middleware does for
-- the job of an accepted token.
pub data CallbackEffect (m : Mac) (s : Signer) (now : ℕ) (cb : CallbackEnv) (r : Request) (db : Db)
    : Db → Type 0 where
  untouched : CallbackEffect m s now cb r db db
  started_by :
      (job_id : String) (reply : Reply) (d : Db)
      → TokenFor m s now r job_id
      → StartOutcome cb job_id db reply d
      → CallbackEffect m s now cb r db d
  completed_by :
      (job_id : String) (reply : Reply) (d : Db)
      → TokenFor m s now r job_id
      → CompleteOutcome cb job_id db reply d
      → CallbackEffect m s now cb r db d

is_valid_sound : (v : Verdict) → is_valid v ≡ true → v ≡ valid
is_valid_sound valid h = refl
is_valid_sound invalid_token h = absurd (ground arith)
is_valid_sound token_expired h = absurd (ground arith)

-- a bearer token that is not empty stands behind the prefix
bearer_token :
    (r : Request)
    → is_empty (extract_bearer r) ≡ false
    → r.authorization ≡ bytes_of "Bearer " ++ extract_bearer r
unfolding extract_bearer
bearer_token r h = elim (Option-cases (cut_prefix (bytes_of "Bearer ") r.authorization)) [
  | inl e ↦ absurd (subst (λ o. is_empty (or_empty o) ≡ false → ⊥) (sym e) (λ t. ground arith) h)
  | inr (t, e) ↦ cut_prefix_sound (bytes_of "Bearer ") r.authorization e ∙ rw e refl
]

module _ (m : Mac) (s : Signer) (env : AuthEnv) (cb : CallbackEnv) (r : Request) (db : Db) where
  auth-TokenFor :
      Ensures
        (λ passed d. (d ≡ db) × TokenFor m s env.now r passed.0)
        (λ _ d. CallbackEffect m s env.now cb r db d)
        (auth m s env r)
        db
  unfolding auth
  auth-TokenFor =
      Ensures-stop_if _ _ _ _ (λ _. untouched)
        λ there.
          Ensures-require _ _ _ _ (λ _. untouched)
            λ body _.
              Ensures-require _ _ _ _ (λ _. untouched)
                λ job_id _.
                  Ensures-stop_if _ _ _ _ (λ _. untouched)
                    λ _.
                      Ensures-stop_unless _ _ _ _ (λ _. untouched)
                        λ ok. Ensures-pure _ _ (
                          refl,
                          (
                            extract_bearer r,
                            bearer_token r there,
                            (validate-Accepted m env.now (bytes_of job_id) s (extract_bearer r)).0
                                (is_valid_sound _ ok),
                          ),
                        )

  behind_auth-effect :
      (next : String → Bytes → Db → Reply × Db)
      → ((job_id : String) (body : Bytes)
          → TokenFor m s env.now r job_id
          → CallbackEffect m s env.now cb r db (next job_id body db).1)
      → CallbackEffect m s env.now cb r db (run (behind_auth m s env next r) db).1
  unfolding behind_auth serve_next
  behind_auth-effect next after = run_meets _ db (
      Ensures-check (λ passed. TokenFor m s env.now r passed.0) (auth m s env r)
        (λ passed. serve_next m s env (next passed.0 passed.1)) db auth-TokenFor
        (λ (job_id, body) t.
          Ensures-get _ _ (Ensures-modify _ _ _ (Ensures-pure _ _ (after job_id body t)))))

  -- The database after POST /internal/jobs/start and after POST /internal/jobs/complete is the one
  -- before, or the request carries a bearer token that the signer accepts for a job id and it is
  -- what the start, or the completion, of that job leaves.
  pub callbacks-authorized :
      CallbackEffect m s env.now cb r db (serve_start m s env cb r db).1
      × CallbackEffect m s env.now cb r db (serve_complete m s env cb r db).1
  unfolding serve_start serve_complete
  callbacks-authorized = (
    behind_auth-effect _ (λ job_id body t.
        started_by job_id _ _ t (start-outcome cb job_id db (env.decode_start body))),
    behind_auth-effect _ (λ job_id body t.
        completed_by job_id _ _ t
          (complete-outcome cb job_id db (env.decode_complete (take max_body_bytes body)))),
  )
