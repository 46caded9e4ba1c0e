-- ===== src/Context/Reach.antt =====
-- Sequences of requests to the context handlers, and what they never lead to.
use zagforge_mvp.Prelude.{
  ℕ, String, ◌≡◌, ◌≢◌, sym, ◌∙◌, subst, arith, Bool, true, ◌&&◌, not, Option, none, some, List, [],
  ◌∷◌, All, find, Bool-cases, inl, inr,
}
use zagforge_mvp.Jobs.Model.{Snapshot}
use zagforge_mvp.Context.Model.{ContextToken, ContextDb, touch}
use zagforge_mvp.Context.Queries.{one_owner, with_hash, get_context_token_by_hash}
use zagforge_mvp.Context.Manage.{
  ManageEnv, CreateBody, create_token, update_allowed_users, delete_token_of,
}
use zagforge_mvp.Context.Manage.Tidy.{Tidy, Tidy-touch}
use zagforge_mvp.Context.Manage.Kept.{
  create_token-Tidy, update_allowed_users-Tidy, delete_token_of-Tidy,
}
use zagforge_mvp.Context.Visit.{VisitEnv, Visited, shown, head, get_context, record_use}
use zagforge_mvp.Context.Visit.Shown.{
  Visit, turned_away, nothing_to_show, shows, Glance, seen, unseen, visits-Admitted,
}

record_use-Tidy :
    (env : VisitEnv) (t : ContextToken) (db : ContextDb) → Tidy db → Tidy (record_use env t db)
unfolding record_use
record_use-Tidy env t db v = elim (Bool-cases (env.touched && not (env.fails touch))) [
  | inl writes ↦ rw writes (Tidy-touch env.now t.id db v)
  | inr no_write ↦ rw no_write v
]

get_context-Tidy :
    (env : VisitEnv) (raw authorization : String) (db : ContextDb)
    → Tidy db
    → Tidy (get_context env raw authorization db).1
get_context-Tidy env raw authorization db v = left (visits-Admitted env raw authorization db).1
  where
    left : {r : Visited} {d : ContextDb} → Visit env raw authorization db r d → Tidy d
    left (turned_away code h) = v
    left (nothing_to_show t code h a) = record_use-Tidy env t db v
    left (shows t snap a l n) = record_use-Tidy env t db v

-- The databases that requests lead to from one without tokens.
pub data ContextReach : ContextDb → Type 0 where
  blank : (db : ContextDb) → db.tokens ≡ [] → db.allowed_users ≡ [] → ContextReach db
  by_create :
      (env : ManageEnv) (org repo : Option ℕ) (body : Option CreateBody) (db : ContextDb)
      → ContextReach db
      → ContextReach (create_token env org repo body db).1
  by_update :
      (env : ManageEnv) (org token : Option ℕ) (body : Option (List String)) (db : ContextDb)
      → ContextReach db
      → ContextReach (update_allowed_users env org token body db).1
  by_delete :
      (env : ManageEnv) (org token : Option ℕ) (db : ContextDb)
      → ContextReach db
      → ContextReach (delete_token_of env org token db).1
  by_visit :
      (env : VisitEnv) (raw authorization : String) (db : ContextDb)
      → ContextReach db
      → ContextReach (get_context env raw authorization db).1

pub ContextReach-Tidy : (db : ContextDb) → ContextReach db → Tidy db
ContextReach-Tidy _ (blank db t a) = record {
  owned = rw t tt;
  one_for_hash = λ hash. rw t (omega arith);
  grants = rw a tt;
}
ContextReach-Tidy _ (by_create env org repo body db r) =
    create_token-Tidy env org repo body db (ContextReach-Tidy db r)
ContextReach-Tidy _ (by_update env org token body db r) =
    update_allowed_users-Tidy env org token body db (ContextReach-Tidy db r)
ContextReach-Tidy _ (by_delete env org token db r) =
    delete_token_of-Tidy env org token db (ContextReach-Tidy db r)
ContextReach-Tidy _ (by_visit env raw authorization db r) =
    get_context-Tidy env raw authorization db (ContextReach-Tidy db r)

OfToken : (ContextToken → Type 0) → Option ContextToken → Type 0
OfToken P none = Unit
OfToken P (some t) = P t

find-OfToken :
    (P : ContextToken → Type 0) (q : ContextToken → Bool) (l : List ContextToken)
    → All P l
    → OfToken P (find q l)
unfolding OfToken
find-OfToken P q [] a = tt
find-OfToken P q (x ∷ l) a = elim (Bool-cases (q x)) [
  | inl e ↦ rw e a.0
  | inr e ↦ rw e (find-OfToken P q l a.1)
]

untargeted :
    (hash : String) (db : ContextDb) (t : ContextToken)
    → Tidy db
    → get_context_token_by_hash hash db ≡ some t
    → t.target_snapshot_id ≡ none
unfolding OfToken get_context_token_by_hash
untargeted hash db t v h =
    (subst (OfToken (λ t. (t.target_snapshot_id ≡ none) × (one_owner t ≡ true))) h
      (find-OfToken _ (with_hash hash) db.tokens v.owned)).0

abbrev Targeted : Option ℕ → Type 0
Targeted none = ⊥
Targeted (some id) = Unit

-- In every database that requests lead to from one without tokens, HEAD of a context link shows no
-- snapshot: no request gives a token the target that HEAD asks for. A row with a target that is put
-- into the table otherwise is not covered.
pub head-ContextReach :
    (env : VisitEnv) (raw authorization : String) (db : ContextDb) (snap : Snapshot)
    → ContextReach db
    → (head env raw authorization db).0 ≢ shown snap
head-ContextReach env raw authorization db snap r e =
    none_seen (visits-Admitted env raw authorization db).0 e
  where
    none_seen : {v : Visited} {d : ContextDb} → Glance env raw authorization db v d → v ≢ shown snap
    none_seen (unseen code h) e = absurd (ground arith)
    none_seen (seen t id s a has there) e = absurd (
        subst Targeted
          (sym has ∙ untargeted (env.sha256 raw) db t (ContextReach-Tidy db r) a.by_hash) tt)
