-- ===== src/RepoList.antt =====
-- ClientHandler.ListRepos of shared/go/provider/github/client.go, without the circuit breaker. One
-- request for a page is a parameter: it is answered by GitHub.
pub mod Ends
mod Tests
use zagforge_mvp.Prelude.{
  ℕ, zero, suc, ◌+◌, String, Bool, Option, none, some, List, [], ◌++◌, length, leb, if◌then◌else◌,
}

pub record Repo : Type 0 where
  pub id : ℕ
  pub full_name : String
  pub default_branch : String

-- the decoded answer to the request for a page
pub record Page : Type 0 where
  pub total_count : ℕ
  pub repositories : List Repo

pub data Listed : Type 0 where
  out_of_fuel failed : Listed
  listed : List Repo → Listed

-- The token of the installation, and the page with a number: `none` when a request fails, is not
-- answered 200 or does not decode.
pub record GithubApi : Type 0 where
  pub clone_token : Option String
  pub page : ℕ → Option Page

-- the end of a pass, with what the next pass makes of the repositories
unfoldable pub list_page : (List Repo → Listed) → List Repo → Option Page → Listed
list_page next repos none = failed
list_page next repos (some p) =
    if leb p.total_count (length (repos ++ p.repositories))
    then listed (repos ++ p.repositories)
    else next (repos ++ p.repositories)

module _ (api : GithubApi) where
  -- the loop, from a page on with what was collected; each pass takes one unit of fuel
  unfoldable pub list_from : ℕ → ℕ → List Repo → Listed
  list_from zero page repos = out_of_fuel
  list_from (suc fuel) page repos =
      list_page (λ all. list_from fuel (page + 1) all) repos (api.page page)

  pub with_token : ℕ → Option String → Listed
  with_token fuel none = failed
  with_token fuel (some token) = list_from fuel 1 []

  -- ListRepos
  pub list_repos : ℕ → Listed
  list_repos fuel = with_token fuel api.clone_token
