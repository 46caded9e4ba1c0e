-- ===== src/Jobs/Hook.antt =====
-- POST /internal/webhooks/github: Handler.ServeHTTP of api/internal/handler/webhook/webhook.go with
-- ClientHandler.ValidateWebhook of shared/go/provider/github/client.go, in front of HandlePush, and
-- its route of api/internal/routes/internal.go: the limit of middleware/bodylimit/bodylimit.go,
-- RequireJSON of middleware/contenttype/contenttype.go and the rate limiter.
pub mod Signed
mod Tests
use zagforge_mvp.Prelude.{
  ℕ, ◌+◌, ◌*◌, String, ◌≡◌, refl, Bool, true, false, not, ◌&&◌, Option, none, some, List, [], ◌∷◌,
  ◌++◌, take, length, ltb, str_eq, if◌then◌else◌,
}
use zagforge_mvp.Prelude.Flow.{
  Act, ◌>>=◌, ◌>>◌, pure, reply, require, stop_if, stop_unless, get, modify, run,
}
use zagforge_mvp.Prelude.Bytes.{Bytes, bytes_of, bytes_eq, cut_text}
use zagforge_mvp.JobToken.{Mac}
use zagforge_mvp.RateLimit.{SortedSet, RateLimitConfig, Entry, rate_limit}
use zagforge_mvp.Jobs.Model.{Db}
use zagforge_mvp.Jobs.Push.{PushEvent, PushEnv, Pushed, push_failed, handle_push}

pub record PushPayload : Type 0 where
  pub ref : String
  pub after : String
  pub action : String
  pub repo_id : ℕ
  pub full_name : String
  pub clone_url : String
  pub installation_id : ℕ

pub record WebhookEvent : Type 0 where
  pub event_type : String
  pub action : String
  pub repo_id : ℕ
  pub repo_name : String
  pub clone_url : String
  pub branch : String
  pub commit_sha : String
  pub installation_id : ℕ

-- the headers X-Hub-Signature-256, X-GitHub-Event and X-GitHub-Delivery, and what the body's reader
-- yields, `none` when it fails
pub record HookRequest : Type 0 where
  pub signature : Bytes
  pub event_type : String
  pub delivery_id : String
  pub body : Option Bytes

pub data Validated : Type 0 where
  bad_signature parse_failed : Validated
  event : WebhookEvent → Validated

-- http.MaxBytesReader: reading past the limit fails
pub limit : ℕ → Option Bytes → Option Bytes
limit n none = none
limit n (some s) = if ltb n (length s) then none else some s

-- 1 MB for the route, 25 MB for the handler
abbrev pub body_limit : ℕ
body_limit = 1024 * 1024

abbrev pub max_payload_bytes : ℕ
max_payload_bytes = 25 * 1024 * 1024

abbrev or_whole : String → Option String → String
or_whole s none = s
or_whole s (some rest) = rest

pub branch_from_ref : String → String
branch_from_ref ref = or_whole ref (cut_text "refs/heads/" ref)

pub event_of : String → PushPayload → WebhookEvent
event_of event_type p = record {
  event_type = event_type;
  action = p.action;
  repo_id = p.repo_id;
  repo_name = p.full_name;
  clone_url = p.clone_url;
  branch = branch_from_ref p.ref;
  commit_sha = p.after;
  installation_id = p.installation_id;
}

-- what HandlePush reads of an event
abbrev pub push_event : WebhookEvent → PushEvent
push_event e = record { repo_id = e.repo_id; branch = e.branch; commit_sha = e.commit_sha }

abbrev pub is_empty : Bytes → Bool
is_empty [] = true
is_empty (c ∷ s) = false

-- io.ReadAll of a limited reader
pub read_limited : ℕ → Option Bytes → Option Bytes
read_limited n none = none
read_limited n (some s) = some (take n s)

-- HandlePush returned an error
abbrev pub failed_push : Pushed → Bool
failed_push push_failed = true
failed_push _ = false

-- What the endpoint takes from outside: the webhook secret, encoding/json on a payload, and the
-- environment of the push.
pub record HookEnv : Type 0 where
  pub secret : Bytes
  pub decode_payload : Bytes → Option PushPayload
  pub push : PushEnv

module _ (m : Mac) (env : HookEnv) where
  pub expected_signature : Bytes → Bytes
  expected_signature body = bytes_of "sha256=" ++ m.mac env.secret body

  parsed : String → Option PushPayload → Validated
  parsed event_type none = parse_failed
  parsed event_type (some p) = event (event_of event_type p)

  -- ValidateWebhook
  pub validate_webhook : Bytes → Bytes → String → Validated
  validate_webhook body signature event_type =
      if bytes_eq (expected_signature body) signature
      then parsed event_type (env.decode_payload body)
      else bad_signature

  -- the two answers to an error of ValidateWebhook
  accepted : Validated → Act Db ℕ WebhookEvent
  accepted bad_signature = reply 401
  accepted parse_failed = reply 500
  accepted (event e) = pure e

  dispatch : String → WebhookEvent → Act Db ℕ ℕ
  dispatch delivery e = do
    stop_unless (str_eq e.event_type "push") 200
    db ← get
    let pushed = handle_push env.push (push_event e) delivery db
    modify (λ _. pushed.1)
    stop_if (failed_push pushed.0) 500
    pure 202

  -- the status code of the answer
  hook_steps : HookRequest → Act Db ℕ ℕ
  hook_steps r = do
    stop_if (is_empty r.signature) 401
    body ← require (read_limited (max_payload_bytes + 1) r.body) 500
    stop_if (ltb max_payload_bytes (length body)) 413
    e ← accepted (validate_webhook body r.signature r.event_type)
    dispatch r.delivery_id e

  pub serve_hook : HookRequest → Db → ℕ × Db
  serve_hook r = run (hook_steps r)

-- the route's rateLimitWebhook and rateLimitWindow, a minute
abbrev pub webhook_rate : RateLimitConfig
webhook_rate = record { max_requests = 120; window = 60000000 }

-- What the middlewares of the route take from outside: mime.ParseMediaType, `none` for its error, and
-- for the rate limiter the clock and whether the pipeline fails.
pub record RouteEnv : Type 0 where
  pub hook : HookEnv
  pub media_type : String → Option String
  pub now : ℕ
  pub limiter_fails : Bool

abbrev pub is_some_text : String → Option String → Bool
is_some_text t none = false
is_some_text t (some s) = str_eq s t

-- isJSON
pub is_json : (String → Option String) → String → Bool
is_json media_type content_type =
    not (str_eq content_type "") && is_some_text "application/json" (media_type content_type)

module _ {S : Type 0} (z : SortedSet S) (m : Mac) (env : RouteEnv) where
  open env use {hook, media_type, now, limiter_fails}

  pub limited_then : HookRequest → Bool × Entry S → Db → ℕ × Db × Entry S
  limited_then r (false, e) db = (429, db, e)
  limited_then r (true, e) db =
      let out = serve_hook m hook (record r { body = limit body_limit r.body }) db in
      (out.0, out.1, e)

  -- The route, a POST: the limit on the body, RequireJSON on the Content-Type, the rate limiter with
  -- the entry of the client's key, and the handler.
  pub serve_route : String → HookRequest → Db → Entry S → ℕ × Db × Entry S
  serve_route content_type r db e =
      if is_json media_type content_type
      then limited_then r (rate_limit z webhook_rate limiter_fails now e) db
      else (415, db, e)
