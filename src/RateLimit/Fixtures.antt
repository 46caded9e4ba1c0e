-- ===== src/RateLimit/Fixtures.antt =====
-- A sorted set as the list of its scores, for the tests.
use zagforge_mvp.Prelude.{ℕ, refl, List, [], ◌∷◌, leb, length, delete_where}
use zagforge_mvp.RateLimit.{SortedSet}

-- the scores from the highest on
abbrev pub as_list : SortedSet (List ℕ)
as_list = record {
  no_key = [];
  zrem_range_by_score = λ max s. delete_where (λ x. leb x max) s;
  zcard = λ s. length s;
  zadd = λ score s. score ∷ s;
  scores = λ s. s;
  scores-no_key = refl;
  scores-zrem_range_by_score = λ max s. refl;
  zcard-scores = λ s. refl;
  scores-zadd = λ score s older. refl;
}
