-- ===== src/Security/Blocking.antt =====
-- When an identifier is blocked.
use zagforge_mvp.Prelude.{
  ℕ, ◌+◌, ◌≤◌, ◌<◌, String, ◌≡◌, refl, Bool, true, false, some, List, [], ◌∷◌, ◌++◌, arith, str_eq,
  eq_iff, count_where, count_where-append, length, All,
}
use zagforge_mvp.Security.{
  FailedLoginAttempt, window, recent_by, recent_from, count_recent_failed_logins,
  count_recent_failed_logins_by_ip, record_failed_login, max_failed_attempts, CountFaults,
  is_blocked, record_failure,
}

-- failed logins with one identifier, each with its time and address
pub all_failed : String → List (ℕ × String) → List FailedLoginAttempt → List FailedLoginAttempt
all_failed identifier [] rows = rows
all_failed identifier (a ∷ rest) rows =
    all_failed identifier rest (record_failure false a.0 identifier a.1 rows).1

str_eq_refl : (s : String) → str_eq s s ≡ true
str_eq_refl s = (eq_iff s s).1 refl

count_up :
    (now : ℕ) (identifier : String) (tries : List (ℕ × String)) (rows : List FailedLoginAttempt)
    → All (λ a. now < a.0 + window) tries
    → count_recent_failed_logins now identifier (all_failed identifier tries rows)
      ≡ length tries + count_recent_failed_logins now identifier rows
unfolding all_failed record_failure record_failed_login count_recent_failed_logins
count_up now identifier [] rows h = omega arith
count_up now identifier ((t, ip) ∷ rest) rows h =
    let row : FailedLoginAttempt = record {
      identifier = identifier;
      ip_address = ip;
      created_at = t;
    } in
    ground (
      arith,
      count_up now identifier rest (rows ++ row ∷ []) h.1,
      count_where-append (recent_by now identifier) rows (row ∷ []),
      str_eq_refl identifier,
      h.0,
    )

-- Ten recorded failures with one identifier block it: for fifteen minutes after the first of them,
-- from whatever addresses they came and whatever was recorded before, IsBlocked answers true unless
-- its first count fails.
pub is_blocked-all_failed :
    (fails : CountFaults) (now : ℕ) (identifier ip : String) (tries : List (ℕ × String))
    (rows : List FailedLoginAttempt)
    → fails.by_identifier ≡ false
    → max_failed_attempts ≤ length tries
    → All (λ a. now < a.0 + window) tries
    → is_blocked fails now identifier ip (all_failed identifier tries rows) ≡ some true
unfolding is_blocked
is_blocked-all_failed fails now identifier ip tries rows works many young =
    ground (arith, count_up now identifier tries rows young)

count_other :
    (p : FailedLoginAttempt → Bool) (rows : List FailedLoginAttempt) (row : FailedLoginAttempt)
    → p row ≡ false
    → count_where p (rows ++ row ∷ []) ≡ count_where p rows
count_other p rows row h = ground (arith, count_where-append p rows (row ∷ []))

-- A failure with another identifier and from another address changes nothing for a login: IsBlocked
-- gives the same answer, or the same error, before and after it is recorded.
pub is_blocked-record_failure :
    (fails : CountFaults) (failed : Bool) (now t : ℕ) (identifier ip other other_ip : String)
    (rows : List FailedLoginAttempt)
    → str_eq other identifier ≡ false
    → str_eq other_ip ip ≡ false
    → is_blocked fails now identifier ip (record_failure failed t other other_ip rows).1
      ≡ is_blocked fails now identifier ip rows
unfolding is_blocked record_failure record_failed_login count_recent_failed_logins
    count_recent_failed_logins_by_ip
is_blocked-record_failure fails true now t identifier ip other other_ip rows differs elsewhere =
    refl
is_blocked-record_failure fails false now t identifier ip other other_ip rows differs elsewhere =
    let row : FailedLoginAttempt = record {
      identifier = other;
      ip_address = other_ip;
      created_at = t;
    } in
    rw
      (
        count_other (recent_by now identifier) rows row (ground arith),
        count_other (recent_from now ip) rows row (ground arith),
      )
      refl
