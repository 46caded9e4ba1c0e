-- ===== src/Security.antt =====
-- Service.IsBlocked and RecordFailure of services/auth/internal/service/security/bruteforce.go, over
-- failed_login_attempts (store/failed_logins.sql.go). The address is what parseIP gives for the request.
pub mod Blocking
mod Tests
use zagforge_mvp.Prelude.{
  ℕ, ◌+◌, ◌*◌, String, Bool, true, false, ◌&&◌, Option, none, some, List, [], ◌∷◌, ◌++◌, leb, ltb,
  str_eq, if◌then◌else◌, count_where,
}

pub record FailedLoginAttempt : Type 0 where
  pub identifier : String
  pub ip_address : String
  pub created_at : ℕ

-- `created_at > now() - interval '15 minutes'`, in microseconds
abbrev pub window : ℕ
window = 15 * 60000000

abbrev pub recent : ℕ → FailedLoginAttempt → Bool
recent now a = ltb now (a.created_at + window)

abbrev pub recent_by : ℕ → String → FailedLoginAttempt → Bool
recent_by now identifier a = str_eq a.identifier identifier && recent now a

abbrev pub recent_from : ℕ → String → FailedLoginAttempt → Bool
recent_from now ip a = str_eq a.ip_address ip && recent now a

-- countRecentFailedLogins
unfoldable pub count_recent_failed_logins : ℕ → String → List FailedLoginAttempt → ℕ
count_recent_failed_logins now identifier rows = count_where (recent_by now identifier) rows

-- countRecentFailedLoginsByIP
unfoldable pub count_recent_failed_logins_by_ip : ℕ → String → List FailedLoginAttempt → ℕ
count_recent_failed_logins_by_ip now ip rows = count_where (recent_from now ip) rows

-- recordFailedLogin
unfoldable pub record_failed_login :
    ℕ → String → String → List FailedLoginAttempt → List FailedLoginAttempt
record_failed_login now identifier ip rows =
    rows ++ record { identifier = identifier; ip_address = ip; created_at = now } ∷ []

abbrev pub max_failed_attempts : ℕ
max_failed_attempts = 10

-- whether each of the two counts fails
pub record CountFaults : Type 0 where
  pub by_identifier : Bool
  pub by_ip : Bool

-- IsBlocked, `none` when it returns an error
unfoldable pub is_blocked :
    CountFaults → ℕ → String → String → List FailedLoginAttempt → Option Bool
is_blocked fails now identifier ip rows =
    if fails.by_identifier
    then none
    else if leb max_failed_attempts (count_recent_failed_logins now identifier rows)
    then some true
    else if fails.by_ip
    then none
    else some (leb (max_failed_attempts * 3) (count_recent_failed_logins_by_ip now ip rows))

-- RecordFailure: an error, and no row, when the statement fails
unfoldable pub record_failure :
    Bool → ℕ → String → String → List FailedLoginAttempt → Bool × List FailedLoginAttempt
record_failure failed now identifier ip rows =
    if failed then (false, rows) else (true, record_failed_login now identifier ip rows)
