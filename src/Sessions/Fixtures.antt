-- ===== src/Sessions/Fixtures.antt =====
-- Two sessions of two users, for the tests.
use Prim.Native.String.{◌++◌}
use zagforge_mvp.Prelude.{ℕ, ◌≡◌, refl, false, none, some, [], ◌∷◌}
use zagforge_mvp.Sessions.Model.{RefreshToken, Session, SessionDb, Faults}
use zagforge_mvp.Sessions.Queries.{new_token, get_refresh_token_by_hash}
use zagforge_mvp.Sessions.Refresh.{RefreshEnv}

abbrev pub no_faults : Faults
no_faults q = false

abbrev pub session : ℕ → ℕ → Session
session id user = record {
  id = id;
  user_id = user;
  last_active_at = 10;
  expires_at = 9000;
  revoked_at = none;
  created_at = 10;
}

abbrev pub first_token : RefreshToken
first_token = new_token 10 100 1 20 "sha:r1" 9000

abbrev pub db : SessionDb
db = record {
  sessions = session 20 1 ∷ session 21 2 ∷ [];
  tokens = first_token ∷ new_token 10 101 2 21 "sha:r2" 9000 ∷ [];
}

abbrev pub env : RefreshEnv
env = record {
  fails = no_faults;
  now = 50;
  new_id = 102;
  random_token = "r3";
  ttl = 8000;
  hash_token = λ s. "sha:" ++ s;
  access_token = λ user. some "jwt";
}

pub first_stored : get_refresh_token_by_hash (env.hash_token "r1") db ≡ some first_token
unfolding get_refresh_token_by_hash
first_stored = refl
