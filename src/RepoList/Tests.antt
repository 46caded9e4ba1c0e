-- ===== src/RepoList/Tests.antt =====
-- Two repositories on two pages.
use zagforge_mvp.Prelude.{
  ℕ, zero, suc, ◌≤◌, ◌<◌, length, ◌≡◌, ◌≢◌, arith, some, [], ◌∷◌, ◌==◌, if◌then◌else◌,
}
use zagforge_mvp.RepoList.{Repo, Page, GithubApi, out_of_fuel, list_repos}
use zagforge_mvp.RepoList.Ends.{Pages, shown, list_repos-ends}

abbrev first : Repo
first = record { id = 1; full_name = "acme/site"; default_branch = "main" }

abbrev second : Repo
second = record { id = 2; full_name = "acme/docs"; default_branch = "main" }

-- the pages past the second one are empty
abbrev api : GithubApi
api = record {
  clone_token = some "token";
  page = λ k. some (record {
    total_count = 2;
    repositories = if k == 1 then first ∷ [] else if k == 2 then second ∷ [] else [];
  });
}

api-filled :
    (k : ℕ) (p : Page)
    → api.page (suc k) ≡ some p
    → shown api k < p.total_count
    → 0 < length p.repositories
unfolding shown
api-filled zero p e left = ground arith
api-filled (suc zero) p e left = ground arith
api-filled (suc (suc k)) p e left = absurd (ground (arith, two_shown k))
  where
    two_shown : (k : ℕ) → 2 ≤ shown api (suc (suc k))
    two_shown zero = omega arith
    two_shown (suc k) = omega (arith, two_shown k)

api-Pages : Pages api 2
api-Pages = record { announced = λ k p e. ground arith; filled = api-filled }

list_repos-ends_example : (list_repos api 3 ≢ out_of_fuel) × (list_repos api 8 ≡ list_repos api 3)
list_repos-ends_example = list_repos-ends api 2 api-Pages 5
