-- ===== src/Context/Manage/Kept.antt =====
-- The handlers keep the tokens in order.
use zagforge_mvp.Prelude.{ℕ, String, Option, List, refl}
use zagforge_mvp.Prelude.FlowLaws.{
  Leaves-pure, Leaves-stop_if, Leaves-get, Leaves-modify, Leaves-require, Leaves-bind, step_rules,
  at-run,
}
use zagforge_mvp.Context.Model.{ContextDb}
use zagforge_mvp.Context.Manage.{
  ManageEnv, CreateBody, verify_repo_ownership, create_steps, create_token, update_allowed_steps,
  update_allowed_users, delete_steps, delete_token_of,
}
use zagforge_mvp.Context.Manage.Tidy.{
  Tidy, Tidy-insert_context_token, Tidy-insert_users, Tidy-replace, Tidy-delete,
}

pub create_token-Tidy :
    (env : ManageEnv) (org repo : Option ℕ) (body : Option CreateBody) (db : ContextDb)
    → Tidy db
    → Tidy (create_token env org repo body db).1
unfolding create_token create_steps verify_repo_ownership
create_token-Tidy env org repo body db v = at-run _ db (
    Leaves-require _ _ _ _ v λ repo_id _.
      Leaves-bind _ _ _ (search (step_rules, v) depth 12) λ _ d _ v'.
        Leaves-require _ _ _ _ v' λ b _. Leaves-require _ _ _ _ v' λ visibility _.
          Leaves-require _ _ _ _ v' λ raw _. Leaves-require _ _ _ _ v' λ expires_at _.
            Leaves-stop_if _ _ _ _ v' λ _. Leaves-get _ _ (
              Leaves-require _ _ _ _ v' λ d' h. Leaves-modify _ _ _ (
                Leaves-pure _ _ (
                  Tidy-insert_users env env.new_id _ d'
                    (Tidy-insert_context_token _ d d' refl h v')))))

pub update_allowed_users-Tidy :
    (env : ManageEnv) (org token : Option ℕ) (body : Option (List String)) (db : ContextDb)
    → Tidy db
    → Tidy (update_allowed_users env org token body db).1
unfolding update_allowed_users update_allowed_steps
update_allowed_users-Tidy env org token body db v =
    at-run {P = Tidy} (update_allowed_steps env token body) db (
      Leaves-require _ _ _ _ v λ token_id _. Leaves-require _ _ _ _ v λ users _.
        Leaves-stop_if _ _ _ _ v λ _. Leaves-stop_if _ _ _ _ v λ _. Leaves-modify _ _ _ (
          Leaves-modify _ _ _ (
            Leaves-pure _ _ (Tidy-insert_users env token_id users _ (Tidy-replace token_id db v)))))

pub delete_token_of-Tidy :
    (env : ManageEnv) (org token : Option ℕ) (db : ContextDb)
    → Tidy db
    → Tidy (delete_token_of env org token db).1
unfolding delete_token_of delete_steps
delete_token_of-Tidy env org token db v =
    at-run {P = Tidy} (delete_steps env org token) db (search (step_rules, v, Tidy-delete) depth 12)
