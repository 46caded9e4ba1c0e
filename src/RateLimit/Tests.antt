-- ===== src/RateLimit/Tests.antt =====
-- Two requests in a window of ten microseconds.
use zagforge_mvp.Prelude.{ℕ, ◌≤◌, ◌≡◌, refl, arith, false, List, [], ◌∷◌, count_where}
use zagforge_mvp.RateLimit.Fixtures.{as_list}
use zagforge_mvp.RateLimit.{
  RateLimitConfig, Entry, absent, rate_limit, check_rate_limit, answer_for,
}
use zagforge_mvp.RateLimit.Window.{
  in_window, Served, nobody, admit, admitted-bound, rate_limit-exact,
}

abbrev two_in_ten : RateLimitConfig
two_in_ten = record { max_requests = 2; window = 10 }

abbrev after_one : Entry (List ℕ)
after_one = (rate_limit as_list two_in_ten false 100 (absent as_list two_in_ten)).1

abbrev after_two : Entry (List ℕ)
after_two = (rate_limit as_list two_in_ten false 101 after_one).1

one : Served as_list two_in_ten after_one (100 ∷ []) (100 ∷ [])
unfolding rate_limit check_rate_limit answer_for
one = admit 100 (absent as_list two_in_ten) [] [] nobody tt (omega arith) refl

two : Served as_list two_in_ten after_two (101 ∷ 100 ∷ []) (101 ∷ 100 ∷ [])
unfolding rate_limit check_rate_limit answer_for
two = admit 101 after_one (100 ∷ []) (100 ∷ []) one (omega arith, tt) (omega arith) refl

admitted-bound_example : count_where (in_window two_in_ten 99) (101 ∷ 100 ∷ []) ≤ 2
admitted-bound_example = admitted-bound as_list two_in_ten 99 two

rate_limit-exact_example :
    ((rate_limit as_list two_in_ten false 102 after_two).0 ≡ false)
    × ((check_rate_limit as_list two_in_ten 102 after_two).0.remaining ≡ 0)
rate_limit-exact_example =
    rate_limit-exact as_list two_in_ten 102 two (omega arith, (omega arith, tt)) (omega arith)
