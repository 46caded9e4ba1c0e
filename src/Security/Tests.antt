-- ===== src/Security/Tests.antt =====
-- Ten failed logins of one user within a minute, and one of another user.
use zagforge_mvp.Prelude.{
  ℕ, ◌+◌, ◌<◌, String, ◌≡◌, refl, true, false, some, List, [], ◌∷◌, arith, All,
}
use zagforge_mvp.Security.{FailedLoginAttempt, CountFaults, window, is_blocked}
use zagforge_mvp.Security.Blocking.{all_failed, is_blocked-all_failed}

abbrev works : CountFaults
works = record { by_identifier = false; by_ip = false }

abbrev at : ℕ → ℕ × String
at t = (t, "10.0.0.1")

abbrev ten : List (ℕ × String)
ten = at 1 ∷ at 2 ∷ at 3 ∷ at 4 ∷ at 5 ∷ at 6 ∷ at 7 ∷ at 8 ∷ at 9 ∷ at 10 ∷ []

abbrev before : List FailedLoginAttempt
before = record { identifier = "b@x.org"; ip_address = "10.0.0.2"; created_at = 1 } ∷ []

young : All (λ a. 60000000 < a.0 + window) ten
young = ground arith

is_blocked-all_failed_example :
    is_blocked works 60000000 "a@x.org" "10.0.0.9" (all_failed "a@x.org" ten before) ≡ some true
is_blocked-all_failed_example =
    is_blocked-all_failed works 60000000 "a@x.org" "10.0.0.9" ten before refl (omega arith) young
