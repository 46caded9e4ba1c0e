-- ===== src/Jobs/Hook/Tests.antt =====
-- Deliveries to the webhook endpoint.
use zagforge_mvp.Prelude.{
  ℕ, zero, suc, ◌+◌, ◌≡◌, refl, arith, false, some, List, ◌⊎◌, [], ◌∷◌, length,
}
use zagforge_mvp.Prelude.Bytes.{Bytes, bytes_of, cut_text}
use zagforge_mvp.JobToken.Fixtures.{toy}
use zagforge_mvp.RateLimit.{Entry, absent}
use zagforge_mvp.RateLimit.Fixtures.{as_list}
use zagforge_mvp.Jobs.Fixtures.{start_db, push_env}
use zagforge_mvp.Jobs.Hook.{
  HookRequest, HookEnv, PushPayload, expected_signature, branch_from_ref, serve_hook, serve_route,
  body_limit, RouteEnv, webhook_rate,
}
use zagforge_mvp.Jobs.Hook.Signed.{HookOutcome, serve_hook-outcome, serve_route-large}

abbrev payload : PushPayload
payload = record {
  ref = "refs/heads/main";
  after = "bbb";
  action = "";
  repo_id = 77;
  full_name = "acme/site";
  clone_url = "https://github.com/acme/site.git";
  installation_id = 5;
}

abbrev hook_env : HookEnv
hook_env = record {
  secret = bytes_of "secret";
  decode_payload = λ body. some payload;
  push = push_env;
}

abbrev delivery : Bytes → HookRequest
delivery body = record {
  signature = expected_signature toy hook_env body;
  event_type = "push";
  delivery_id = "d2";
  body = some body;
}

branch_name : branch_from_ref "refs/heads/main" ≡ "main"
unfolding branch_from_ref cut_text
branch_name = refl

tag_kept : branch_from_ref "refs/tags/v1" ≡ "refs/tags/v1"
unfolding branch_from_ref cut_text
tag_kept = refl

serve_hook-outcome_example :
    HookOutcome toy hook_env
      (delivery (bytes_of "{}"))
      start_db
      (serve_hook toy hook_env (delivery (bytes_of "{}")) start_db).0
      (serve_hook toy hook_env (delivery (bytes_of "{}")) start_db).1
serve_hook-outcome_example = serve_hook-outcome toy hook_env (delivery (bytes_of "{}")) start_db

zeros : ℕ → Bytes
zeros zero = []
zeros (suc n) = 0 ∷ zeros n

length-zeros : (n : ℕ) → length (zeros n) ≡ n
unfolding zeros
length-zeros zero = refl
length-zeros (suc n) = omega (arith, length-zeros n)

abbrev route_env : RouteEnv
route_env = record {
  hook = hook_env;
  media_type = λ s. some s;
  now = 100000000;
  limiter_fails = false;
}

abbrev no_requests : Entry (List ℕ)
no_requests = absent as_list webhook_rate

abbrev large : HookRequest
large = delivery (zeros (body_limit + 1))

serve_route-large_example :
    (((serve_route as_list toy route_env "application/json" large start_db no_requests).0 ≡ 401)
      ⊎ (((serve_route as_list toy route_env "application/json" large start_db no_requests).0 ≡ 415)
          ⊎ (((serve_route as_list toy route_env "application/json" large start_db no_requests).0
                ≡ 429)
              ⊎ ((serve_route as_list toy route_env "application/json" large start_db no_requests).0
                  ≡ 500))))
    × ((serve_route as_list toy route_env "application/json" large start_db no_requests).1
        ≡ start_db)
serve_route-large_example =
    serve_route-large as_list toy route_env "application/json" large (zeros (body_limit + 1))
      start_db no_requests refl (omega (arith, length-zeros (body_limit + 1)))
