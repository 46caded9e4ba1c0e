-- ===== src/Jobs/Lifecycle.antt =====
-- Any sequence of pushes, callbacks, watchdog runs and polls, each under its own failures. Every
-- operation runs to its end before the next: rows are locked, and a claim's two statements count as
-- one operation.
use zagforge_mvp.Prelude.{
  ℕ, ◌≤◌, String, ◌≡◌, ap, true, Option, some, List, [], ◌∷◌, arith, find, Bool-cases, inl, inr,
  subst,
}
use zagforge_mvp.Jobs.Model.{is_terminal, Job, Db, Faults}
use zagforge_mvp.Jobs.Queries.{has_id, get_job}
use zagforge_mvp.Jobs.Push.{PushEnv, PushEvent, handle_push}
use zagforge_mvp.Jobs.Push.Sound.{handle_push-Sound}
use zagforge_mvp.Jobs.Callback.{CallbackEnv, CompleteRequest, start, complete}
use zagforge_mvp.Jobs.Callback.Sound.{start-Sound, complete-Sound}
use zagforge_mvp.Jobs.Watchdog.{timeout}
use zagforge_mvp.Jobs.Watchdog.Sound.{timeout-Sound}
use zagforge_mvp.Jobs.Poller.{ClaimEnv, claim_one}
use zagforge_mvp.Jobs.Poller.Sound.{claim_one-Sound}
use zagforge_mvp.Jobs.History.{Moves, Evolves}
use zagforge_mvp.Jobs.Queue.{waiting}
use zagforge_mvp.Jobs.Validity.{IsValid, Sound, Sound-refl, Sound-trans, Fresh}

pub data Step : Db → Db → Type 0 where
  push :
      (env : PushEnv) (event : PushEvent) (delivery : String) (db : Db)
      → Fresh env.new_id db
      → Step db (handle_push env event delivery db).1
  start_callback :
      (env : CallbackEnv) (ctx_id : String) (body : Option String) (db : Db)
      → Step db (start env ctx_id body db).1
  complete_callback :
      (env : CallbackEnv) (ctx_id : String) (body : Option CompleteRequest) (db : Db)
      → Step db (complete env ctx_id body db).1
  watchdog : (fails : Faults) (now : ℕ) (db : Db) → Step db (timeout fails now db).1
  poll : (env : ClaimEnv) (db : Db) → Step db (claim_one env db).1

pub data Reach (db : Db) : Db → Type 0 where
  here : Reach db db
  next : {mid last : Db} → Reach db mid → Step mid last → Reach db last

pub Step-Sound : {db db' : Db} → Step db db' → IsValid db → Sound db db'
Step-Sound (push env event delivery db fresh) v = handle_push-Sound env event delivery v fresh
Step-Sound (start_callback env ctx_id body db) v = start-Sound env v ctx_id body
Step-Sound (complete_callback env ctx_id body db) v = complete-Sound env v ctx_id body
Step-Sound (watchdog fails now db) v = timeout-Sound fails now v
Step-Sound (poll env db) v = claim_one-Sound env v

pub Reach-Sound : {db db' : Db} → IsValid db → Reach db db' → Sound db db'
Reach-Sound v here = Sound-refl v
Reach-Sound v (next r st) = let s = Reach-Sound v r in Sound-trans s (Step-Sound st s.valid)

-- Whatever happens after a valid database, at most one job waits for each repository and branch.
pub Reach-one_queued :
    {db db' : Db} (repo : ℕ) (branch : String)
    → IsValid db
    → Reach db db'
    → waiting repo branch db' ≤ 1
Reach-one_queued repo branch v r = (Reach-Sound v r).valid.one_queued repo branch

find-Evolves :
    (id : ℕ) (xs ys : List Job) {j : Job}
    → Evolves xs ys
    → find (has_id id) xs ≡ some j
    → (k : Job) × (find (has_id id) ys ≡ some k) × Moves j k
find-Evolves id [] ys e h = absurd (ground arith)
find-Evolves id (x ∷ xs) [] e h = absurd e
find-Evolves id (x ∷ xs) (y ∷ ys) {j} e h = elim (Bool-cases (has_id id x)) [
  | inl hit ↦
      let same : x ≡ j = ground arith in
      let found : find (has_id id) (y ∷ ys) ≡ some y = ground (arith, e.0) in
      (y, found, subst (λ z. Moves z y) same e.0)
  | inr miss ↦
      let below : find (has_id id) xs ≡ some j = ground arith in
      let (k, found, m) = find-Evolves id xs ys e.1 below in
      let found' : find (has_id id) (y ∷ ys) ≡ some k = ground (arith, e.0) in (k, found', m)
]

-- A job never disappears: in every later database its id finds a job with the same repository and
-- branch that is at the same stage or a later one, and that is the same row if the job was terminal.
pub Reach-Moves :
    {db db' : Db} (id : ℕ) {j : Job}
    → IsValid db
    → Reach db db'
    → get_job id db ≡ some j
    → (k : Job) × (get_job id db' ≡ some k) × Moves j k
unfolding get_job
Reach-Moves {db} {db'} id v r h = find-Evolves id db.jobs db'.jobs (Reach-Sound v r).evolves h

-- A job that has succeeded, failed or been cancelled or superseded is never changed again: every
-- later database has the same row under its id.
pub Reach-terminal :
    {db db' : Db} (id : ℕ) {j : Job}
    → IsValid db
    → Reach db db'
    → get_job id db ≡ some j
    → is_terminal j.status ≡ true
    → get_job id db' ≡ some j
Reach-terminal id {j} v r h t =
    let (k, found, m) = Reach-Moves id v r h in
    rw found (elim m.frozen [ inl live ↦ absurd (ground arith) | inr same ↦ ap some same ])
