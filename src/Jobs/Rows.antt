-- ===== src/Jobs/Rows.antt =====
-- What a query by primary key finds after a write.
use zagforge_mvp.Prelude.{
  ℕ, String, ◌≡◌, refl, false, Option, none, some, List, [], ◌∷◌, arith, ◌==◌, ==_iff,
  if◌then◌else◌, find, update_where,
}
use zagforge_mvp.Jobs.Model.{JobStatus, Job, Db}
use zagforge_mvp.Jobs.Queries.{has_id, set_status, get_job, update_job_status}

abbrev pub map_row : (Job → Job) → Option Job → Option Job
map_row f none = none
map_row f (some j) = some (f j)

pub find-update_where :
    (id : ℕ) (f : Job → Job) (xs : List Job)
    → ((x : Job) → (f x).id ≡ x.id)
    → find (has_id id) (update_where (has_id id) f xs) ≡ map_row f (find (has_id id) xs)
find-update_where id f [] h = refl
find-update_where id f (x ∷ xs) h = ground (arith, h x, find-update_where id f xs h)

pub find-update_where_ne :
    (id id' : ℕ) (f : Job → Job) (xs : List Job)
    → ((x : Job) → (f x).id ≡ x.id)
    → (id' == id) ≡ false
    → find (has_id id) (update_where (has_id id') f xs) ≡ find (has_id id) xs
find-update_where_ne id id' f [] h k = refl
find-update_where_ne id id' f (x ∷ xs) h k =
    ground (arith, h x, find-update_where_ne id id' f xs h k)

-- UPDATE of a status, then SELECT by any key
pub get_job-update_job_status :
    (now id id' : ℕ) (s : JobStatus) (m : Option String) (db : Db)
    → get_job id (update_job_status now id' s m db)
      ≡ (if id' == id then map_row (set_status now s m) (get_job id db) else get_job id db)
unfolding get_job update_job_status
get_job-update_job_status now id id' s m db = ground (
  arith,
  find-update_where id (set_status now s m) db.jobs (λ x. refl),
  find-update_where_ne id id' (set_status now s m) db.jobs (λ x. refl),
  ==_iff id' id,
)
