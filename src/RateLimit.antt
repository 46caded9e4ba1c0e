-- ===== src/RateLimit.antt =====
-- The sliding window of api/internal/middleware/ratelimit/ratelimit.go, for one key. Times are the
-- microseconds since 1970, so later than a window after it.
pub mod Window
pub mod Fixtures
mod Tests
use zagforge_mvp.Prelude.{
  ℕ, ◌+◌, ◌-◌, ◌<◌, ◌≡◌, Bool, true, false, Option, none, some, List, [], ◌∷◌, ltb, leb,
  if◌then◌else◌, All, length, delete_where,
}

-- Redis' sorted set of a key, as its documentation has it: `scores` lists the scores from the highest
-- on. Every member is the text of its score, so a score is there once.
pub record SortedSet (S : Type 0) : Type 0 where
  pub no_key : S
  pub zrem_range_by_score : (max : ℕ) → S → S
  pub zcard : S → ℕ
  pub zadd : (score : ℕ) → S → S
  pub scores : S → List ℕ
  pub scores-no_key : scores no_key ≡ []
  pub scores-zrem_range_by_score :
      (max : ℕ) (s : S)
      → scores (zrem_range_by_score max s) ≡ delete_where (λ x. leb x max) (scores s)
  pub zcard-scores : (s : S) → zcard s ≡ length (scores s)
  pub scores-zadd :
      (score : ℕ) (s : S)
      → All (λ x. x < score) (scores s)
      → scores (zadd score s) ≡ score ∷ scores s

pub record RateLimitConfig : Type 0 where
  pub max_requests : ℕ
  pub window : ℕ

-- the key with its time to live
pub record Entry (S : Type 0) : Type 0 where
  pub set : S
  pub deadline : ℕ

-- a second
abbrev pub second : ℕ
second = 1000000

pub record Answer : Type 0 where
  pub allowed : Bool
  pub remaining : ℕ

module _ {S : Type 0} (z : SortedSet S) (cfg : RateLimitConfig) where
  open z use {no_key, zrem_range_by_score, zcard, zadd}

  abbrev pub absent : Entry S
  absent = record { set = no_key; deadline = 0 }

  -- a key whose time to live is over is gone
  abbrev pub current : ℕ → Entry S → S
  current now e = if ltb e.deadline now then no_key else e.set

  -- the set that ZCARD counts
  abbrev pub trimmed : ℕ → Entry S → S
  trimmed now e = zrem_range_by_score (now - cfg.window) (current now e)

  -- the answer for a count
  pub answer_for : ℕ → Answer
  answer_for count =
      if leb cfg.max_requests count
      then record { allowed = false; remaining = 0 }
      else record { allowed = true; remaining = cfg.max_requests - count - 1 }

  -- checkRateLimit, whose pipeline goes through
  pub check_rate_limit : ℕ → Entry S → Answer × Entry S
  check_rate_limit now e = (
    answer_for (zcard (trimmed now e)),
    record { set = zadd now (trimmed now e); deadline = now + (cfg.window + second) },
  )

  -- RateLimit: whether the request goes on; one whose pipeline fails goes on
  pub rate_limit : Bool → ℕ → Entry S → Bool × Entry S
  rate_limit fails now e =
      if fails then (true, e) else (let out = check_rate_limit now e in (out.0.allowed, out.1))
