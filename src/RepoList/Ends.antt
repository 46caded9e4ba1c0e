-- ===== src/RepoList/Ends.antt =====
-- When the listing of the repositories ends.
use zagforge_mvp.Prelude.{
  ℕ, zero, suc, ◌+◌, ◌≤◌, ◌<◌, String, ◌≡◌, ◌≢◌, refl, subst, arith, Option, none, some, List, [],
  ◌∷◌, ◌++◌, length, leb, Bool-cases, inl, inr,
}
use zagforge_mvp.RepoList.{
  Repo, Page, Listed, out_of_fuel, GithubApi, list_from, list_page, with_token, list_repos,
}

-- the repositories on a page, none when its request fails
abbrev pub size : Option Page → ℕ
size none = 0
size (some p) = length p.repositories

-- the repositories on the first `k` pages
unfoldable pub shown : GithubApi → ℕ → ℕ
shown api zero = 0
shown api (suc k) = shown api k + size (api.page (suc k))

-- GitHub announces `n` repositories at most, and a page behind which there are announced ones that
-- the pages before it have not shown is not empty. The pages past the end may be.
pub record Pages (api : GithubApi) (n : ℕ) : Type 0 where
  pub announced : (k : ℕ) (p : Page) → api.page k ≡ some p → p.total_count ≤ n
  pub filled :
      (k : ℕ) (p : Page)
      → api.page (suc k) ≡ some p
      → shown api k < p.total_count
      → 0 < length p.repositories

length-append : (xs ys : List Repo) → length (xs ++ ys) ≡ length xs + length ys
length-append [] ys = omega arith
length-append (x ∷ xs) ys = omega (arith, length-append xs ys)

-- the repositories after a page from which the loop goes on
abbrev Grown : List Repo → Option Page → List Repo → Type 0
Grown repos o all = (length repos < length all) × (length all ≡ length repos + size o)

-- the loop comes to an end whatever the next pass does, or goes on with more repositories
list_page-ends :
    (next : List Repo → Listed) (repos : List Repo) (o : Option Page) (n : ℕ)
    → ((p : Page)
        → o ≡ some p
        → (p.total_count ≤ n) × (length repos < p.total_count → 0 < length p.repositories))
    → ((all : List Repo) → Grown repos o all → length all < n → next all ≢ out_of_fuel)
    → list_page next repos o ≢ out_of_fuel
unfolding list_page
list_page-ends next repos none n h k = λ e. absurd (ground arith)
list_page-ends next repos (some p) n h k =
    elim (Bool-cases (leb p.total_count (length (repos ++ p.repositories)))) [
      | inl done ↦ rw done (λ e. absurd (ground arith))
      | inr on ↦
          let grown = length-append repos p.repositories in
          let page = h p refl in
          let more : length (repos ++ p.repositories) < p.total_count = ground arith in
          let some_left = page.1 (omega (arith, grown, more)) in
          rw on (
            k (repos ++ p.repositories) (omega (arith, grown, some_left), grown)
              (omega (arith, more, page.0)))
    ]

-- two next passes that agree on what is left to collect
list_page-same :
    (next other : List Repo → Listed) (repos : List Repo) (o : Option Page) (n : ℕ)
    → ((p : Page)
        → o ≡ some p
        → (p.total_count ≤ n) × (length repos < p.total_count → 0 < length p.repositories))
    → ((all : List Repo) → Grown repos o all → length all < n → next all ≡ other all)
    → list_page next repos o ≡ list_page other repos o
unfolding list_page
list_page-same next other repos none n h k = refl
list_page-same next other repos (some p) n h k =
    elim (Bool-cases (leb p.total_count (length (repos ++ p.repositories)))) [
      | inl done ↦ rw done refl
      | inr on ↦
          let grown = length-append repos p.repositories in
          let page = h p refl in
          let more : length (repos ++ p.repositories) < p.total_count = ground arith in
          let some_left = page.1 (omega (arith, grown, more)) in
          rw on (
            k (repos ++ p.repositories) (omega (arith, grown, some_left), grown)
              (omega (arith, more, page.0)))
    ]

module _ (api : GithubApi) (n : ℕ) (h : Pages api n) where
  -- what is known of the page after `k` pages
  facts :
      (k page : ℕ) (repos : List Repo)
      → page ≡ suc k
      → length repos ≡ shown api k
      → (p : Page) → api.page page ≡ some p
      → (p.total_count ≤ n) × (length repos < p.total_count → 0 < length p.repositories)
  facts k page repos next before p e = (
    h.announced page p e,
    λ left.
        h.filled k p (subst (λ x. api.page x ≡ some p) next e)
          (subst (λ x. x < p.total_count) before left),
  )

  shown_next :
      (k page : ℕ) (repos all : List Repo)
      → page ≡ suc k
      → length repos ≡ shown api k
      → Grown repos (api.page page) all
      → length all ≡ shown api (suc k)
  unfolding shown
  shown_next k page repos all next before g =
      let grown : length all ≡ length repos + size (api.page (suc k)) =
        subst (λ x. length all ≡ length repos + size (api.page x)) next g.1 in
      omega (arith, grown, before)

  list_from-ends :
      (fuel k page : ℕ) (repos : List Repo)
      → page ≡ suc k
      → length repos ≡ shown api k
      → n < length repos + fuel
      → 0 < fuel
      → list_from api fuel page repos ≢ out_of_fuel
  unfolding list_from
  list_from-ends zero k page repos next before enough some_fuel = absurd (omega arith)
  list_from-ends (suc fuel) k page repos next before enough some_fuel =
      list_page-ends (λ all. list_from api fuel (page + 1) all) repos (api.page page) n
        (facts k page repos next before)
        (λ all g left.
          list_from-ends fuel (suc k) (page + 1) all (omega arith)
            (shown_next k page repos all next before g) (omega (arith, g.0)) (omega (arith, g.0)))

  list_from-same :
      (fuel other k page : ℕ) (repos : List Repo)
      → page ≡ suc k
      → length repos ≡ shown api k
      → n < length repos + fuel
      → n < length repos + other
      → 0 < fuel
      → 0 < other
      → list_from api fuel page repos ≡ list_from api other page repos
  unfolding list_from
  list_from-same zero other k page repos next before e1 e2 f1 f2 = absurd (omega arith)
  list_from-same (suc fuel) zero k page repos next before e1 e2 f1 f2 = absurd (omega arith)
  list_from-same (suc fuel) (suc other) k page repos next before e1 e2 f1 f2 =
      list_page-same (λ all. list_from api fuel (page + 1) all)
        (λ all. list_from api other (page + 1) all) repos (api.page page) n
        (facts k page repos next before)
        (λ all g left.
          list_from-same fuel other (suc k) (page + 1) all (omega arith)
            (shown_next k page repos all next before g) (omega (arith, g.0)) (omega (arith, g.0))
            (omega (arith, g.0)) (omega (arith, g.0)))

  with_token-ends :
      (more : ℕ) (o : Option String)
      → (with_token api (n + 1) o ≢ out_of_fuel)
        × (with_token api (n + 1 + more) o ≡ with_token api (n + 1) o)
  unfolding with_token shown
  with_token-ends more none = ((λ e. absurd (ground arith)), refl)
  with_token-ends more (some token) = (
    list_from-ends (n + 1) 0 1 [] refl refl (omega arith) (omega arith),
    list_from-same (n + 1 + more) (n + 1) 0 1 [] refl refl (omega arith) (omega arith) (omega arith)
        (omega arith),
  )

  -- When GitHub announces `n` repositories at most and no page is empty before the announced ones
  -- are shown, the listing ends within `n + 1` pages, and the result is the same for every larger
  -- number of pages. Pages past the end may be empty.
  pub list_repos-ends :
      (more : ℕ)
      → (list_repos api (n + 1) ≢ out_of_fuel)
        × (list_repos api (n + 1 + more) ≡ list_repos api (n + 1))
  unfolding list_repos
  list_repos-ends more = with_token-ends more api.clone_token

-- A listing whose pages are all empty while GitHub announces a repository asks for page after page
-- without an end.
pub list_repos-endless :
    (api : GithubApi) (token : String) (total fuel : ℕ)
    → api.clone_token ≡ some token
    → ((k : ℕ) → api.page k ≡ some (record { total_count = total + 1; repositories = [] }))
    → list_repos api fuel ≡ out_of_fuel
unfolding list_repos with_token list_from list_page
list_repos-endless api token total fuel has empty = rw has (pages fuel 1)
  where
    pages : (fuel page : ℕ) → list_from api fuel page [] ≡ out_of_fuel
    pages zero page = refl
    pages (suc fuel) page = rw (empty page) (ground (arith, pages fuel (page + 1)))
