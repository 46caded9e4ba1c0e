-- ===== src/RateLimit/Window.antt =====
-- The limit over a window, whatever the requests are.
use zagforge_mvp.Prelude.{
  All_mono, All-delete_where, ℕ, ◌+◌, ◌-◌, ◌≤◌, ◌<◌, ◌≡◌, refl, sym, ap, ◌∙◌, arith, Bool, true,
  false, ◌&&◌, not, List, [], ◌∷◌, ltb, leb, Bool-cases, inl, inr, All, length, delete_where,
  count_where, count_where_mono,
}
use zagforge_mvp.RateLimit.{
  SortedSet, RateLimitConfig, Entry, absent, current, trimmed, answer_for, check_rate_limit,
  rate_limit,
}

-- a request at `x` counts for one at `now`
abbrev pub recent : RateLimitConfig → ℕ → ℕ → Bool
recent cfg now x = ltb now (x + cfg.window)

-- the window that ends at `from + window`, and has not `from`
abbrev pub in_window : RateLimitConfig → ℕ → ℕ → Bool
in_window cfg from x = ltb from x && leb x (from + cfg.window)

count_where-delete_other :
    (p q : ℕ → Bool) (l : List ℕ)
    → ((x : ℕ) → q x ≡ true → p x ≡ false)
    → count_where q (delete_where p l) ≡ count_where q l
count_where-delete_other p q [] h = refl
count_where-delete_other p q (x ∷ l) h = ground (arith, h x, count_where-delete_other p q l h)

length-delete_where :
    (p q : ℕ → Bool) (l : List ℕ)
    → ((x : ℕ) → q x ≡ not (p x))
    → length (delete_where p l) ≡ count_where q l
length-delete_where p q [] h = refl
length-delete_where p q (x ∷ l) h = ground (arith, h x, length-delete_where p q l h)

count_where-none : (q : ℕ → Bool) (l : List ℕ) → All (λ x. q x ≡ false) l → count_where q l ≡ 0
count_where-none q [] a = refl
count_where-none q (x ∷ l) a = rw a.0 (count_where-none q l a.1)

module _ {S : Type 0} (z : SortedSet S) (cfg : RateLimitConfig) where
  open z use {scores}

  -- the key against the requests that were seen
  record Tracks (e : Entry S) (seen : List ℕ) : Type 0 where
    pub counts :
        (now : ℕ)
        → All (λ x. x < now) seen
        → count_where (recent cfg now) (scores e.set) ≡ count_where (recent cfg now) seen
    pub older : (now : ℕ) → All (λ x. x < now) seen → All (λ x. x < now) (scores e.set)
    pub fits : All (λ x. x + cfg.window < e.deadline) seen

  module _ (now : ℕ) (e : Entry S) (seen : List ℕ) (h : Tracks e seen)
      (new : All (λ x. x < now) seen) (late_enough : cfg.window ≤ now) where
    -- a key that is gone had nothing that still counts
    current-counts :
        (later : ℕ)
        → now ≤ later
        → All (λ x. x < later) seen
        → count_where (recent cfg later) (scores (current z cfg now e))
          ≡ count_where (recent cfg later) seen
    current-counts later le a = elim (Bool-cases (ltb e.deadline now)) [
      | inl gone ↦ rw gone (
          rw z.scores-no_key (
            sym (
              count_where-none (recent cfg later) seen
                (All_mono _ _ seen (λ x f. ground arith) h.fits))))
      | inr here ↦ rw here (h.counts later a)
    ]

    current-older :
        (later : ℕ)
        → All (λ x. x < later) seen
        → All (λ x. x < later) (scores (current z cfg now e))
    current-older later a = elim (Bool-cases (ltb e.deadline now)) [
      | inl gone ↦ rw gone (rw z.scores-no_key tt)
      | inr here ↦ rw here (h.older later a)
    ]

    trimmed-counts :
        (later : ℕ)
        → now ≤ later
        → All (λ x. x < later) seen
        → count_where (recent cfg later) (scores (trimmed z cfg now e))
          ≡ count_where (recent cfg later) seen
    trimmed-counts later le a =
        rw (z.scores-zrem_range_by_score (now - cfg.window) (current z cfg now e)) (
          count_where-delete_other _ (recent cfg later) (scores (current z cfg now e))
            (λ x r. ground arith)
          ∙ current-counts later le a)

    trimmed-older :
        (later : ℕ)
        → All (λ x. x < later) seen
        → All (λ x. x < later) (scores (trimmed z cfg now e))
    trimmed-older later a =
        rw (z.scores-zrem_range_by_score (now - cfg.window) (current z cfg now e))
          (All-delete_where _ _ (scores (current z cfg now e)) (current-older later a))

    -- ZCARD is the number of the requests that count
    zcard-trimmed : z.zcard (trimmed z cfg now e) ≡ count_where (recent cfg now) seen
    zcard-trimmed =
        z.zcard-scores (trimmed z cfg now e)
        ∙ ap length (z.scores-zrem_range_by_score (now - cfg.window) (current z cfg now e))
        ∙ length-delete_where _ (recent cfg now) (scores (current z cfg now e)) (λ x. ground arith)
        ∙ current-counts now (omega arith) new

    check_rate_limit-Tracks : Tracks (check_rate_limit z cfg now e).1 (now ∷ seen)
    unfolding check_rate_limit
    check_rate_limit-Tracks = record {
      counts = λ later a.
          rw (z.scores-zadd now (trimmed z cfg now e) (trimmed-older now new))
            (ground (arith, trimmed-counts later (omega (arith, a.0)) a.1));
      older = λ later a.
          rw (z.scores-zadd now (trimmed z cfg now e) (trimmed-older now new))
            (a.0, trimmed-older later a.1);
      fits = (omega arith, All_mono _ _ seen (λ x l. omega (arith, l)) new);
    }

  absent-Tracks : Tracks (absent z cfg) []
  absent-Tracks = record {
    counts = λ now a. rw z.scores-no_key refl;
    older = λ now a. rw z.scores-no_key tt;
    fits = tt;
  }

  -- Requests for one key at growing times whose pipelines go through: the key that they leave, all
  -- of them and those that went on, the latest first.
  pub data Served : Entry S → (seen admitted : List ℕ) → Type 0 where
    nobody : Served (absent z cfg) [] []
    admit :
        (now : ℕ) (e : Entry S) (seen admitted : List ℕ)
        → Served e seen admitted
        → All (λ x. x < now) seen
        → cfg.window ≤ now
        → (rate_limit z cfg false now e).0 ≡ true
        → Served (rate_limit z cfg false now e).1 (now ∷ seen) (now ∷ admitted)
    refuse :
        (now : ℕ) (e : Entry S) (seen admitted : List ℕ)
        → Served e seen admitted
        → All (λ x. x < now) seen
        → cfg.window ≤ now
        → (rate_limit z cfg false now e).0 ≡ false
        → Served (rate_limit z cfg false now e).1 (now ∷ seen) admitted

  Served-Tracks : {e : Entry S} {seen admitted : List ℕ} → Served e seen admitted → Tracks e seen
  unfolding rate_limit
  Served-Tracks nobody = absent-Tracks
  Served-Tracks (admit now e seen admitted s new w ok) =
      check_rate_limit-Tracks now e seen (Served-Tracks s) new w
  Served-Tracks (refuse now e seen admitted s new w bad) =
      check_rate_limit-Tracks now e seen (Served-Tracks s) new w

  answer_for-allowed : (count : ℕ) → (answer_for z cfg count).allowed ≡ ltb count cfg.max_requests
  unfolding answer_for
  answer_for-allowed count = ground arith

  rate_limit-allowed :
      {e : Entry S} {seen admitted : List ℕ} (now : ℕ)
      → Served e seen admitted
      → All (λ x. x < now) seen
      → cfg.window ≤ now
      → (rate_limit z cfg false now e).0 ≡ ltb (count_where (recent cfg now) seen) cfg.max_requests
  unfolding rate_limit check_rate_limit
  rate_limit-allowed {e} {seen} now s new w =
      answer_for-allowed (z.zcard (trimmed z cfg now e))
      ∙ ap (λ n. ltb n cfg.max_requests) (zcard-trimmed now e seen (Served-Tracks s) new w)

  -- After requests at growing times whose pipelines went through, the next request goes on exactly
  -- when fewer than the maximum of all earlier requests, admitted or not, lie within a window before
  -- it, and the number of requests that remain is the maximum less those and itself, 0 at least.
  pub rate_limit-exact :
      {e : Entry S} {seen admitted : List ℕ} (now : ℕ)
      → Served e seen admitted
      → All (λ x. x < now) seen
      → cfg.window ≤ now
      → ((rate_limit z cfg false now e).0
          ≡ ltb (count_where (recent cfg now) seen) cfg.max_requests)
        × ((check_rate_limit z cfg now e).0.remaining
            ≡ cfg.max_requests - (count_where (recent cfg now) seen + 1))
  unfolding check_rate_limit answer_for
  rate_limit-exact {e} {seen} now s new w = (
    rate_limit-allowed now s new w,
    ap (λ n. (answer_for z cfg n).remaining) (zcard-trimmed now e seen (Served-Tracks s) new w)
        ∙ ground arith,
  )

  -- those that went on are among those that were seen
  admitted_le :
      {e : Entry S} {seen admitted : List ℕ} (q : ℕ → Bool)
      → Served e seen admitted
      → count_where q admitted ≤ count_where q seen
  admitted_le q nobody = omega arith
  admitted_le q (admit now e seen admitted s new w ok) = ground (arith, admitted_le q s)
  admitted_le q (refuse now e seen admitted s new w bad) = ground (arith, admitted_le q s)

  -- Of the requests for one key at growing times whose pipelines go through, at most the maximum go on
  -- in any window of the configured length, wherever the window begins.
  pub admitted-bound :
      {e : Entry S} {seen admitted : List ℕ} (from : ℕ)
      → Served e seen admitted
      → count_where (in_window cfg from) admitted ≤ cfg.max_requests
  admitted-bound from nobody = omega arith
  admitted-bound from (admit now e seen admitted s new w ok) =
      elim (Bool-cases (in_window cfg from now)) [
        | inl inside ↦
            let few : ltb (count_where (recent cfg now) seen) cfg.max_requests ≡ true =
              sym (rate_limit-allowed now s new w) ∙ ok in
            let within : count_where (in_window cfg from) admitted
                ≤ count_where (recent cfg now) admitted =
              count_where_mono (in_window cfg from) (recent cfg now) admitted
                (λ x i. ground arith) in
            let among = admitted_le (recent cfg now) s in rw inside (ground arith)
        | inr outside ↦ rw outside (admitted-bound from s)
      ]
  admitted-bound from (refuse now e seen admitted s new w bad) = admitted-bound from s
