-- ===== src/Context/Visit/Shown.antt =====
-- What HEAD and GET of a context link show, and what they leave of the database.
use zagforge_mvp.Prelude.{
  ℕ, ◌≤◌, String, ◌≡◌, refl, sym, arith, true, false, ◌&&◌, not, Option, none, some, Bool-cases,
  inl, inr, All, select_where,
}
use zagforge_mvp.Prelude.Outcome.{
  Ensures, Ensures-pure, Ensures-reply, Ensures-stop_if, Ensures-require, Ensures-require_last,
  Ensures-check, Ensures-get, Ensures-modify, run_meets,
}
use zagforge_mvp.Jobs.Model.{Snapshot}
use zagforge_mvp.Context.Model.{ContextToken, RepoRow, ContextDb, touch}
use zagforge_mvp.Context.Queries.{
  on_branch, get_context_token_by_hash, get_snapshot_by_id, get_latest_snapshot, get_repo_by_id,
  update_context_token_last_used,
}
use zagforge_mvp.Context.Queries.Latest.{get_latest_snapshot-newest}
use zagforge_mvp.Context.Visit.{
  Access, granted, auth_required, forbidden, Visited, refused, shown, VisitEnv, expired,
  check_visibility, let_in, admit, head_steps, head, resolve, record_use, get_steps, get_context,
}
use zagforge_mvp.Context.Visit.Rights.{MayRead, granted-MayRead}

-- the link leads to a live token that the caller may read
pub record Admitted (env : VisitEnv) (raw authorization : String) (db : ContextDb)
    (t : ContextToken) : Type 0 where
  pub by_hash : get_context_token_by_hash (env.sha256 raw) db ≡ some t
  pub live : expired env.now t.expires_at ≡ false
  pub may_read : MayRead env authorization t db

-- the snapshot that a token leads to: its target, or the latest of the default branch
pub data LeadsTo (t : ContextToken) (db : ContextDb) (snap : Snapshot) : Type 0 where
  target :
      (id : ℕ)
      → t.target_snapshot_id ≡ some id
      → get_snapshot_by_id id db ≡ some snap
      → LeadsTo t db snap
  latest :
      (repo : RepoRow)
      → t.target_snapshot_id ≡ none
      → get_repo_by_id t.repo_id db ≡ some repo
      → on_branch t.repo_id repo.default_branch snap ≡ true
      → All
          (λ s. s.created_at ≤ snap.created_at)
          (select_where (on_branch t.repo_id repo.default_branch) db.snapshots)
      → LeadsTo t db snap

pub data Visit (env : VisitEnv) (raw authorization : String) (db : ContextDb)
    : Visited → ContextDb → Type 0 where
  turned_away : (code : ℕ) → 400 ≤ code → Visit env raw authorization db (refused code) db
  nothing_to_show :
      (t : ContextToken) (code : ℕ)
      → 400 ≤ code
      → Admitted env raw authorization db t
      → Visit env raw authorization db (refused code) (record_use env t db)
  shows :
      (t : ContextToken) (snap : Snapshot)
      → Admitted env raw authorization db t
      → LeadsTo t db snap
      → 2 ≤ snap.snapshot_version
      → Visit env raw authorization db (shown snap) (record_use env t db)

-- HEAD shows the target of an admitted token, and writes nothing
pub data Glance (env : VisitEnv) (raw authorization : String) (db : ContextDb)
    : Visited → ContextDb → Type 0 where
  unseen : (code : ℕ) → 400 ≤ code → Glance env raw authorization db (refused code) db
  seen :
      (t : ContextToken) (id : ℕ) (snap : Snapshot)
      → Admitted env raw authorization db t
      → t.target_snapshot_id ≡ some id
      → get_snapshot_by_id id db ≡ some snap
      → Glance env raw authorization db (shown snap) db

module _ (env : VisitEnv) (raw authorization : String) (db : ContextDb) where
  let_in-granted :
      (E : Visited → ContextDb → Type 0) (a : Access)
      → ((code : ℕ) → 400 ≤ code → E (refused code) db)
      → Ensures (λ _ d. (d ≡ db) × (a ≡ granted)) E (let_in env a) db
  unfolding let_in
  let_in-granted E granted e = Ensures-pure _ _ (refl, refl)
  let_in-granted E auth_required e = Ensures-reply _ _ (e 401 (omega arith))
  let_in-granted E forbidden e = Ensures-reply _ _ (e 403 (omega arith))

  -- both handlers go on with an admitted token only
  admit-Admitted :
      (E : Visited → ContextDb → Type 0)
      → ((code : ℕ) → 400 ≤ code → E (refused code) db)
      → Ensures
          (λ t d. (d ≡ db) × Admitted env raw authorization db t)
          E
          (admit env raw authorization)
          db
  unfolding admit
  admit-Admitted E e =
      Ensures-stop_if _ _ _ _ (λ _. e 404 (omega arith))
        λ _. Ensures-get _ _ (
          Ensures-require _ _ _ _ (λ _. e 404 (omega arith))
            λ t by_hash.
              Ensures-stop_if _ _ _ _ (λ _. e 410 (omega arith))
                λ live.
                  Ensures-check (λ _. check_visibility env authorization t db ≡ granted) _ _ _
                    (let_in-granted E _ e)
                    (λ _ ok. Ensures-pure _ _ (
                      refl,
                      record {
                        by_hash = by_hash;
                        live = live;
                        may_read = granted-MayRead env authorization t db ok;
                      },
                    )))

  head-Glance :
      Glance env raw authorization db
        (head env raw authorization db).0
        (head env raw authorization db).1
  unfolding head head_steps
  head-Glance = run_meets {E = Glance env raw authorization db} _ db (
      Ensures-check (Admitted env raw authorization db) _ _ _ (admit-Admitted _ unseen) λ t a.
        Ensures-require _ _ _ _ (λ _. unseen 404 (omega arith))
          λ id has.
            Ensures-stop_if _ _ _ _ (λ _. unseen 404 (omega arith))
              λ _. Ensures-get _ _ (
                Ensures-require _ _ _ _ (λ _. unseen 404 (omega arith))
                  λ snap there. Ensures-pure _ _ (seen t id snap a has there)))

  -- the background write touches the tokens alone
  record_use-tables :
      (t : ContextToken)
      → ((record_use env t db).snapshots ≡ db.snapshots)
        × ((record_use env t db).repositories ≡ db.repositories)
  unfolding record_use update_context_token_last_used
  record_use-tables t = elim (Bool-cases (env.touched && not (env.fails touch))) [
    | inl writes ↦ rw writes (refl, refl)
    | inr no_write ↦ rw no_write (refl, refl)
  ]

  latest_of :
      (t : ContextToken) (repo : RepoRow) (snap : Snapshot)
      → t.target_snapshot_id ≡ none
      → get_repo_by_id t.repo_id db ≡ some repo
      → get_latest_snapshot t.repo_id repo.default_branch db ≡ some snap
      → LeadsTo t db snap
  latest_of t repo snap has r there =
      let new = get_latest_snapshot-newest t.repo_id repo.default_branch db snap there in
      latest repo has r new.0 new.1

  resolve-LeadsTo :
      (t : ContextToken) (o : Option ℕ)
      → t.target_snapshot_id ≡ o
      → Admitted env raw authorization db t
      → Ensures
          (λ snap d. (d ≡ record_use env t db) × LeadsTo t db snap)
          (Visit env raw authorization db)
          (resolve env t o)
          (record_use env t db)
  unfolding resolve get_snapshot_by_id get_repo_by_id get_latest_snapshot
  resolve-LeadsTo t (some id) has a =
      Ensures-stop_if _ _ _ _ (λ _. nothing_to_show t 404 (omega arith) a)
        λ _. Ensures-get _ _ (
          Ensures-require_last _ _ _ (λ _. nothing_to_show t 404 (omega arith) a)
            (λ snap there. (refl, target id has (rw (sym (record_use-tables t).0) there))))
  resolve-LeadsTo t none has a =
      Ensures-stop_if _ _ _ _ (λ _. nothing_to_show t 500 (omega arith) a)
        λ _. Ensures-get _ _ (
          Ensures-require _ _ _ _ (λ _. nothing_to_show t 500 (omega arith) a)
            λ repo r.
              Ensures-stop_if _ _ _ _ (λ _. nothing_to_show t 404 (omega arith) a)
                λ _.
                  Ensures-require_last _ _ _ (λ _. nothing_to_show t 404 (omega arith) a)
                    (λ snap there. (
                      refl,
                      latest_of t repo snap has (rw (sym (record_use-tables t).1) r)
                          (rw (sym (record_use-tables t).0) there),
                    )))

  get_context-Visit :
      Visit env raw authorization db
        (get_context env raw authorization db).0
        (get_context env raw authorization db).1
  unfolding get_context get_steps
  get_context-Visit = run_meets _ db (
      Ensures-check (Admitted env raw authorization db) _ _ _ (admit-Admitted _ turned_away) λ t a.
        Ensures-modify _ _ _ (
          Ensures-check (LeadsTo t db) _ _ _ (resolve-LeadsTo t t.target_snapshot_id refl a)
            λ snap l.
              Ensures-stop_if _ _ _ _ (λ _. nothing_to_show t 422 (omega arith) a)
                λ old. Ensures-pure _ _ (shows t snap a l (ground arith))))

  -- HEAD answers 400 or more, or shows the target snapshot of the live token that the link leads to
  -- and that the caller may read; it writes nothing. GET answers 400 or more, or shows the target
  -- snapshot of such a token, or a snapshot of its repository's default branch than which none of that
  -- branch is later when it has no target, and only one of version 2 or more; it writes at most the time of the last use, and
  -- that only for a token that the caller may read.
  pub visits-Admitted :
      Glance env raw authorization db
        (head env raw authorization db).0
        (head env raw authorization db).1
      × Visit env raw authorization db
          (get_context env raw authorization db).0
          (get_context env raw authorization db).1
  visits-Admitted = (head-Glance, get_context-Visit)
