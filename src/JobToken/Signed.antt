-- ===== src/JobToken/Signed.antt =====
-- What Signer.Validate of services/shared/go/jobtoken/jobtoken.go says of the tokens that
-- Signer.Sign writes, and which tokens it accepts.
use zagforge_mvp.Prelude.{
  ℕ, ◌+◌, ◌^◌, ◌<◌, ◌≡◌, ◌↔◌, refl, ap, ◌∙◌, subst, Bool, true, false, not, Option, none, some, [],
  ◌∷◌, ◌++◌, ℤ, pos, ltb, ◌==◌, if◌then◌else◌, All, arith, Bool-cases, Option-cases, inl, inr, ◌⊎◌,
}
use zagforge_mvp.Prelude.Bytes.{Bytes, bytes_eq, bytes_eq_refl, bytes_eq_sound}
use zagforge_mvp.JobToken.Decimal.{format_int, parse_int}
use zagforge_mvp.JobToken.Decimal.RoundTrip.{InRange, parse_int-format_int, parse_int-InRange}
use zagforge_mvp.JobToken.{
  colon, Mac, Verdict, valid, invalid_token, token_expired, Signer, seconds, after_colon, late,
  sign_with, sign, check_expiry, check_text, validate_with, fall_back, validate,
}

after_colon-colon :
    (s rest : Bytes)
    → All (λ c. (c == colon) ≡ false) s
    → after_colon (s ++ colon ∷ rest) ≡ some rest
unfolding after_colon
after_colon-colon [] rest a = refl
after_colon-colon (c ∷ s) rest a = rw (a.0) (after_colon-colon s rest a.1)

-- what a signer accepts: a text that one of its keys signs for the job, with an expiry that is an
-- int64 and not yet over
pub data Accepted (m : Mac) (s : Signer) (now : ℕ) (job token : Bytes) : Type 0 where
  by_key :
      (e : ℤ)
      → InRange e
      → late now e ≡ false
      → token ≡ sign_with m s.key job e
      → Accepted m s now job token
  by_previous :
      (prev : Bytes) (e : ℤ)
      → s.prev_key ≡ some prev
      → InRange e
      → late now e ≡ false
      → token ≡ sign_with m prev job e
      → Accepted m s now job token

verdict_valid :
    (signed over : Bool)
    → (if not signed then invalid_token else if over then token_expired else valid) ≡ valid
    → (signed ≡ true) × (over ≡ false)
verdict_valid true false h = (refl, refl)
verdict_valid true true h = absurd (ground arith)
verdict_valid false over h = absurd (ground arith)

module _ (m : Mac) (now : ℕ) (job : Bytes) where
  -- the text behind the colon of a signed token is the expiry
  validate_with-sign_with :
      (key k : Bytes) (e : ℤ)
      → InRange e
      → validate_with m key now job (sign_with m k job e)
        ≡ check_expiry m key now job (sign_with m k job e) (some e)
  unfolding validate_with check_text sign_with
  validate_with-sign_with key k e r =
      ap (check_text m key now job (sign_with m k job e))
        (after_colon-colon _ (format_int e) (m.no_colon k (job ++ colon ∷ format_int e)))
      ∙ ap (check_expiry m key now job (sign_with m k job e)) (parse_int-format_int e r)

  -- the signing key itself
  pub validate_with-own :
      (key : Bytes) (e : ℤ)
      → InRange e
      → validate_with m key now job (sign_with m key job e)
        ≡ (if late now e then token_expired else valid)
  unfolding check_expiry
  validate_with-own key e r =
      validate_with-sign_with key key e r ∙ rw (bytes_eq_refl (sign_with m key job e)) refl

  OneKey : (key token : Bytes) → Type 0
  OneKey key token = (e : ℤ) × InRange e × (late now e ≡ false) × (token ≡ sign_with m key job e)

  check_expiry-valid :
      (key token : Bytes) (e : ℤ)
      → check_expiry m key now job token (some e) ≡ valid
      → (late now e ≡ false) × (token ≡ sign_with m key job e)
  unfolding check_expiry
  check_expiry-valid key token e h =
      let both = verdict_valid (bytes_eq token (sign_with m key job e)) (late now e) h in
      (both.1, bytes_eq_sound token (sign_with m key job e) both.0)

  check_text-valid :
      (key token : Bytes) (text : Option Bytes)
      → check_text m key now job token text ≡ valid
      → OneKey key token
  unfolding check_text check_expiry OneKey
  check_text-valid key token none h = absurd (ground arith)
  check_text-valid key token (some t) h = elim (Option-cases (parse_int t)) [
    | inl e ↦ absurd (ground arith)
    | inr (z, e) ↦
        let both =
          check_expiry-valid key token z
            (subst (λ o. check_expiry m key now job token o ≡ valid) e h) in
        (z, parse_int-InRange t z e, both.0, both.1)
  ]

  validate_with-valid :
      (key token : Bytes) → validate_with m key now job token ≡ valid → OneKey key token
  unfolding validate_with
  validate_with-valid key token h = check_text-valid key token (after_colon token) h

  -- another key rejects or accepts: it never says that a live token is over
  validate_with-live :
      (key k : Bytes) (e : ℤ)
      → InRange e
      → late now e ≡ false
      → (validate_with m key now job (sign_with m k job e) ≡ valid)
        ⊎ (validate_with m key now job (sign_with m k job e) ≡ invalid_token)
  unfolding check_expiry
  validate_with-live key k e r h =
      elim (Bool-cases (bytes_eq (sign_with m k job e) (sign_with m key job e))) [
        | inl s ↦ inl (validate_with-sign_with key k e r ∙ rw s (rw h refl))
        | inr s ↦ inr (validate_with-sign_with key k e r ∙ rw s refl)
      ]

  fall_back-valid : (p : Option Bytes) (token : Bytes) → fall_back m p now job token valid ≡ valid
  unfolding fall_back
  fall_back-valid none token = refl
  fall_back-valid (some prev) token = refl

  fall_back-expired :
      (p : Option Bytes) (token : Bytes) → fall_back m p now job token token_expired ≡ token_expired
  unfolding fall_back
  fall_back-expired none token = refl
  fall_back-expired (some prev) token = refl

  Accepted-fall_back :
      (s : Signer) (token : Bytes) (p : Option Bytes) (v : Verdict)
      → s.prev_key ≡ p
      → validate_with m s.key now job token ≡ v
      → fall_back m p now job token v ≡ valid
      → Accepted m s now job token
  unfolding fall_back OneKey
  Accepted-fall_back s token p valid hp hv h =
      let (e, r, live, same) = validate_with-valid s.key token hv in by_key e r live same
  Accepted-fall_back s token none invalid_token hp hv h = absurd (ground arith)
  Accepted-fall_back s token (some prev) invalid_token hp hv h =
      let (e, r, live, same) = validate_with-valid prev token h in by_previous prev e hp r live same
  Accepted-fall_back s token none token_expired hp hv h = absurd (ground arith)
  Accepted-fall_back s token (some prev) token_expired hp hv h = absurd (ground arith)

  validate-by_previous :
      (s : Signer) (prev : Bytes) (e : ℤ)
      → s.prev_key ≡ some prev
      → InRange e
      → late now e ≡ false
      → validate m s now job (sign_with m prev job e) ≡ valid
  unfolding validate fall_back
  validate-by_previous s prev e hp r live = elim (validate_with-live s.key prev e r live) [
    | inl ok ↦ rw ok (fall_back-valid s.prev_key (sign_with m prev job e))
    | inr bad ↦ rw bad (rw hp (validate_with-own prev e r ∙ rw live refl))
  ]

  validate-by_key :
      (s : Signer) (e : ℤ)
      → InRange e
      → late now e ≡ false
      → validate m s now job (sign_with m s.key job e) ≡ valid
  unfolding validate
  validate-by_key s e r live =
      ap (fall_back m s.prev_key now job (sign_with m s.key job e))
        (validate_with-own s.key e r ∙ rw live refl)
      ∙ fall_back-valid s.prev_key (sign_with m s.key job e)

  Accepted-valid :
      (s : Signer) (token : Bytes) → Accepted m s now job token → validate m s now job token ≡ valid
  Accepted-valid s token (by_key e r live same) = rw same (validate-by_key s e r live)
  Accepted-valid s token (by_previous prev e hp r live same) =
      rw same (validate-by_previous s prev e hp r live)

  -- A signer finds a token valid exactly when it is the text that the current or the previous key
  -- signs for that job with some int64 expiry that is not yet over.
  pub validate-Accepted :
      (s : Signer) (token : Bytes)
      → (validate m s now job token ≡ valid) ↔ Accepted m s now job token
  unfolding validate
  validate-Accepted s token = (
    Accepted-fall_back s token s.prev_key (validate_with m s.key now job token) refl refl,
    Accepted-valid s token,
  )

-- A token that a signer issues for a job, with an expiry within an int64, is answered by that signer
-- at any later moment: valid up to the second of its expiry, and expired after it. The answer is the
-- same with any previous key configured.
pub validate-sign :
    (m : Mac) (s : Signer) (issued now : ℕ) (job : Bytes)
    → seconds (issued + s.ttl) < 2 ^ 63
    → validate m s now job (sign m s issued job)
      ≡ (if ltb (seconds (issued + s.ttl)) (seconds now) then token_expired else valid)
unfolding validate sign
validate-sign m s issued now job h =
    elim (Bool-cases (ltb (seconds (issued + s.ttl)) (seconds now))) [
      | inl over ↦ rw over (
          rw (validate_with-own m now job s.key (pos (seconds (issued + s.ttl))) h)
            (rw over (fall_back-expired m now job s.prev_key _)))
      | inr live ↦ rw live (validate-by_key m now job s (pos (seconds (issued + s.ttl))) h live)
    ]
