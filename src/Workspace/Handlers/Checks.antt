-- ===== src/Workspace/Handlers/Checks.antt =====
-- The two shared checks of the handlers through the rules of Prelude.Outcome.
use zagforge_mvp.Prelude.{ℕ, ◌≡◌, refl, Bool, true, false, ◌&&◌, some, leb}
use zagforge_mvp.Prelude.Outcome.{
  Ensures, Ensures-pure, Ensures-stop_if, Ensures-stop_unless, Ensures-get, Ensures-require,
  Ensures-stop_if_last,
}
use zagforge_mvp.Workspace.Model.{Membership, WorkDb}
use zagforge_mvp.Workspace.Queries.{get_membership_row, count_owners_by_org}
use zagforge_mvp.Workspace.Handlers.{
  internal, forbidden, last_owner, WorkReply, failed, WorkEnv, require_role, keep_an_owner,
}

-- the row of a user in an organization, which passes a test
abbrev pub RowOf : (Membership → Bool) → ℕ → ℕ → WorkDb → Membership → Type 0
RowOf p user org db m = (get_membership_row user org db ≡ some m) × (p m ≡ true)

module _ (env : WorkEnv) (caller org : ℕ) (db : WorkDb) {E : WorkReply → WorkDb → Type 0} where
  pub require_role-Ensures :
      (p : Membership → Bool)
      → E (failed 403 forbidden) db
      → Ensures (λ m d. (d ≡ db) × RowOf p caller org db m) E (require_role env caller p org) db
  unfolding require_role
  require_role-Ensures p denied =
      Ensures-stop_if _ _ _ _ (λ _. denied)
        (λ _. Ensures-get _ _ (
          Ensures-require _ _ _ _ (λ _. denied)
            (λ m found.
              Ensures-stop_unless _ _ _ _ (λ _. denied)
                (λ rank. Ensures-pure _ _ (refl, (found, rank))))))

  -- going on, an owner who leaves is not the last one
  pub keep_an_owner-Ensures :
      (leaves : Bool)
      → E (failed 500 internal) db
      → E (failed 409 last_owner) db
      → Ensures
          (λ _ d. (d ≡ db) × ((leaves && leb (count_owners_by_org org db) 1) ≡ false))
          E
          (keep_an_owner env caller leaves org)
          db
  unfolding keep_an_owner
  keep_an_owner-Ensures leaves broken last =
      Ensures-stop_if _ _ _ _ (λ _. broken)
        (λ _. Ensures-get _ _ (Ensures-stop_if_last _ _ _ (λ _. last) (λ more. (refl, more))))
