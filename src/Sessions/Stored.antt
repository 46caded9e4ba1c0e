-- ===== src/Sessions/Stored.antt =====
-- What the hash of a token finds after a write.
use zagforge_mvp.Prelude.{
  ℕ, String, ◌≡◌, refl, Bool, Option, none, some, List, [], ◌∷◌, ◌++◌, arith, if◌then◌else◌, find,
  update_where, ==_refl,
}
use zagforge_mvp.Sessions.Model.{RefreshToken, SessionDb}
use zagforge_mvp.Sessions.Queries.{
  has_hash, has_token_id, revoked_token, new_token, get_refresh_token_by_hash, revoke_refresh_token,
  create_refresh_token, update_session_last_active,
}

abbrev pub map_token : (RefreshToken → RefreshToken) → Option RefreshToken → Option RefreshToken
map_token f none = none
map_token f (some t) = some (f t)

pub find_hash-update_where :
    (hash : String) (q : RefreshToken → Bool) (f : RefreshToken → RefreshToken)
    (xs : List RefreshToken)
    → ((t : RefreshToken) → (f t).token_hash ≡ t.token_hash)
    → find (has_hash hash) (update_where q f xs)
      ≡ map_token (λ t. if q t then f t else t) (find (has_hash hash) xs)
find_hash-update_where hash q f [] h = refl
find_hash-update_where hash q f (x ∷ xs) h =
    ground (arith, h x, find_hash-update_where hash q f xs h)

find_hash-append :
    (hash : String) (xs ys : List RefreshToken) {t : RefreshToken}
    → find (has_hash hash) xs ≡ some t
    → find (has_hash hash) (xs ++ ys) ≡ some t
find_hash-append hash [] ys h = absurd (ground arith)
find_hash-append hash (x ∷ xs) ys {t} h = ground (arith, find_hash-append hash xs ys {t = t})

pub get_refresh_token_by_hash-revoke_refresh_token :
    (now : ℕ) (hash : String) (db : SessionDb) {t : RefreshToken}
    → get_refresh_token_by_hash hash db ≡ some t
    → get_refresh_token_by_hash hash (revoke_refresh_token now t.id db) ≡ some (revoked_token now t)
unfolding get_refresh_token_by_hash revoke_refresh_token
get_refresh_token_by_hash-revoke_refresh_token now hash db {t} h = ground (
  arith,
  ==_refl t.id,
  find_hash-update_where hash (has_token_id t.id) (revoked_token now) db.tokens (λ x. refl),
)

pub get_refresh_token_by_hash-create_refresh_token :
    (hash : String) (now id user session : ℕ) (new_hash : String) (expires : ℕ) (db d : SessionDb)
    {t : RefreshToken}
    → get_refresh_token_by_hash hash db ≡ some t
    → create_refresh_token now id user session new_hash expires db ≡ some d
    → get_refresh_token_by_hash hash d ≡ some t
unfolding get_refresh_token_by_hash create_refresh_token
get_refresh_token_by_hash-create_refresh_token hash now id user session new_hash expires db d {t} h
      made =
    let row = new_token now id user session new_hash expires in
    let rows : d.tokens ≡ db.tokens ++ row ∷ [] = ground arith in
    rw rows (find_hash-append hash db.tokens (row ∷ []) h)

pub get_refresh_token_by_hash-update_session_last_active :
    (hash : String) (now id : ℕ) (db : SessionDb)
    → get_refresh_token_by_hash hash (update_session_last_active now id db)
      ≡ get_refresh_token_by_hash hash db
unfolding get_refresh_token_by_hash update_session_last_active
get_refresh_token_by_hash-update_session_last_active hash now id db = refl
