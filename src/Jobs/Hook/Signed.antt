-- ===== src/Jobs/Hook/Signed.antt =====
-- What an answer of the GitHub webhook endpoint says of the request and of the database.
use zagforge_mvp.Prelude.{
  String, Bool, Option, none, ◌⊎◌, ℕ, ◌+◌, ◌<◌, ◌≤◌, ◌≡◌, refl, sym, subst, arith, true, false,
  some, length, ltb, str_eq, eq_iff, if◌then◌else◌, Bool-cases, Option-cases, inl, inr,
}
use zagforge_mvp.Prelude.Flow.{◌>>◌, pure, stop_if}
use zagforge_mvp.Prelude.Outcome.{
  Ensures, Ensures-pure, Ensures-reply, Ensures-stop_if, Ensures-stop_unless, Ensures-require,
  Ensures-check, Ensures-get, Ensures-modify, run_meets,
}
use zagforge_mvp.Prelude.Bytes.{Bytes, bytes_eq, bytes_eq_sound}
use zagforge_mvp.JobToken.{Mac}
use zagforge_mvp.RateLimit.{SortedSet, Entry, rate_limit}
use zagforge_mvp.Jobs.Model.{Db}
use zagforge_mvp.Jobs.Push.{Pushed, handle_push}
use zagforge_mvp.Jobs.Hook.{
  HookRequest, HookEnv, WebhookEvent, PushPayload, limit, body_limit, max_payload_bytes, event_of,
  push_event, read_limited, expected_signature, parsed, validate_webhook, accepted, failed_push,
  dispatch, hook_steps, serve_hook, webhook_rate, RouteEnv, is_json, limited_then, serve_route,
}

-- the signature header is that of the body that was read, and the body is a payload
pub record SignedPush (m : Mac) (env : HookEnv) (r : HookRequest) (body : Bytes) (p : PushPayload)
    : Type 0 where
  pub read : read_limited (max_payload_bytes + 1) r.body ≡ some body
  pub signed : r.signature ≡ expected_signature m env body
  pub payload : env.decode_payload body ≡ some p

abbrev pub push_answer : Pushed → ℕ
push_answer p = if failed_push p then 500 else 202

pub data HookOutcome (m : Mac) (env : HookEnv) (r : HookRequest) (db : Db) : ℕ → Db → Type 0 where
  turned_away : (code : ℕ) → 400 ≤ code → HookOutcome m env r db code db
  ignored :
      (body : Bytes) (p : PushPayload)
      → SignedPush m env r body p
      → str_eq r.event_type "push" ≡ false
      → HookOutcome m env r db 200 db
  pushed :
      (body : Bytes) (p : PushPayload)
      → SignedPush m env r body p
      → r.event_type ≡ "push"
      → HookOutcome m env r db
          (push_answer
            (handle_push env.push (push_event (event_of r.event_type p)) r.delivery_id db).0)
          (handle_push env.push (push_event (event_of r.event_type p)) r.delivery_id db).1

module _ (m : Mac) (env : HookEnv) (r : HookRequest) (db : Db) where
  Event : Bytes → WebhookEvent → Type 0
  Event body e = (p : PushPayload) × (e ≡ event_of r.event_type p) × SignedPush m env r body p

  accepted-Event :
      (body : Bytes)
      → read_limited (max_payload_bytes + 1) r.body ≡ some body
      → Ensures
          (λ e d. (d ≡ db) × Event body e)
          (λ code d. HookOutcome m env r db code d)
          (accepted m env (validate_webhook m env body r.signature r.event_type))
          db
  unfolding accepted validate_webhook parsed Event
  accepted-Event body h = elim (Bool-cases (bytes_eq (expected_signature m env body) r.signature)) [
    | inl same ↦ elim (Option-cases (env.decode_payload body)) [
      | inl e ↦ rw same (rw e (Ensures-reply _ _ (turned_away 500 (omega arith))))
      | inr (p, e) ↦ rw same (
          rw e (
            Ensures-pure _ _ (
              refl,
              (
                p,
                refl,
                record {
                  read = h;
                  signed = sym (bytes_eq_sound (expected_signature m env body) r.signature same);
                  payload = e;
                },
              ),
            )))
    ]
    | inr other ↦ rw other (Ensures-reply _ _ (turned_away 401 (omega arith)))
  ]

  answer_to-push :
      (p : Pushed) (d : Db)
      → HookOutcome m env r db (push_answer p) d
      → Ensures
          (λ code d'. HookOutcome m env r db code d')
          (λ code d'. HookOutcome m env r db code d')
          (stop_if (failed_push p) 500 >> pure 202)
          d
  answer_to-push p d h =
      Ensures-stop_if _ _ _ _
        (λ f. subst (λ b. HookOutcome m env r db (if b then 500 else 202) d) f h)
        (λ f. Ensures-pure _ _ (subst (λ b. HookOutcome m env r db (if b then 500 else 202) d) f h))

  dispatch-outcome :
      (body : Bytes) (e : WebhookEvent)
      → Event body e
      → Ensures
          (λ code d. HookOutcome m env r db code d)
          (λ code d. HookOutcome m env r db code d)
          (dispatch m env r.delivery_id e)
          db
  unfolding dispatch Event event_of
  dispatch-outcome body e (p, same, s) = rw same (
      Ensures-stop_unless _ _ _ _ (λ other. ignored body p s other)
        λ is_push. Ensures-get _ _ (
          Ensures-modify _ _ _
            (answer_to-push _ _ (pushed body p s ((eq_iff r.event_type "push").0 is_push)))))

  -- A request to the webhook handler is turned away with a code from 400 on and the database is as
  -- it was; or its signature is the one that the secret gives for the body that was read, and then
  -- another event than a push answers 200 and changes nothing, and a push answers 202, or 500 when
  -- the push service fails, with the database that the push service leaves for the payload.
  pub serve_hook-outcome :
      HookOutcome m env r db (serve_hook m env r db).0 (serve_hook m env r db).1
  unfolding serve_hook hook_steps
  serve_hook-outcome = run_meets _ db (
      Ensures-stop_if _ _ _ _ (λ _. turned_away 401 (omega arith))
        λ _.
          Ensures-require _ _ _ _ (λ _. turned_away 500 (omega arith))
            λ body h.
              Ensures-stop_if _ _ _ _ (λ _. turned_away 413 (omega arith))
                λ _.
                  Ensures-check (Event body) _ _ _ (accepted-Event body h) (dispatch-outcome body))

-- a large body does not come through the limit
limit-large :
    (body : Bytes) (o : Option Bytes)
    → o ≡ some body
    → body_limit < length body
    → limit body_limit o ≡ none
unfolding limit
limit-large body o there large =
    let over : ltb body_limit (length body) ≡ true = ground arith in rw there (rw over refl)

-- the handler never gets as far as its own limit
Unread : Db → ℕ → Db → Type 0
Unread db code d = ((code ≡ 401) ⊎ (code ≡ 500)) × (d ≡ db)

unread :
    (m : Mac) (env : HookEnv) (r : HookRequest) (db : Db)
    → r.body ≡ none
    → Unread db (serve_hook m env r db).0 (serve_hook m env r db).1
unfolding serve_hook hook_steps read_limited Unread
unread m env r db none_read = run_meets {E = Unread db} (hook_steps m env r) db (
    Ensures-stop_if _ _ _ _ (λ _. (inl refl, refl))
      λ _.
        Ensures-require _ _ _ _ (λ _. (inr refl, refl))
          λ body h. absurd (
            let gone : read_limited (max_payload_bytes + 1) r.body ≡ none = rw none_read refl in
            ground arith))

-- Whatever request comes to the route with a body that is larger than 1 MB: it is answered 401, 415,
-- 429 or 500, so neither 202 nor the 413 that the handler has for a payload over its own limit of
-- 25 MB, and the database is as it was.
pub serve_route-large :
    {S : Type 0} (z : SortedSet S) (m : Mac) (env : RouteEnv) (content_type : String)
    (r : HookRequest) (body : Bytes) (db : Db) (e : Entry S)
    → r.body ≡ some body
    → body_limit < length body
    → (((serve_route z m env content_type r db e).0 ≡ 401)
        ⊎ (((serve_route z m env content_type r db e).0 ≡ 415)
            ⊎ (((serve_route z m env content_type r db e).0 ≡ 429)
                ⊎ ((serve_route z m env content_type r db e).0 ≡ 500))))
      × ((serve_route z m env content_type r db e).1 ≡ db)
unfolding serve_route
serve_route-large {S} z m env content_type r body db e there large =
    elim (Bool-cases (is_json env.media_type content_type)) [
      | inr other ↦ rw other (inr (inl refl), refl)
      | inl json ↦ rw json (limited (rate_limit z webhook_rate env.limiter_fails env.now e))
    ]
  where
    limited :
        (o : Bool × Entry S)
        → (((limited_then z m env r o db).0 ≡ 401)
            ⊎ (((limited_then z m env r o db).0 ≡ 415)
                ⊎ (((limited_then z m env r o db).0 ≡ 429)
                    ⊎ ((limited_then z m env r o db).0 ≡ 500))))
          × ((limited_then z m env r o db).1 ≡ db)
    limited (false, e') = unfold limited_then in (inr (inr (inl refl)), refl)
    limited (true, e') =
        unfold limited_then in
        unfold Unread in
        (let (code, same) =
            unread m env.hook (record r { body = limit body_limit r.body }) db
              (limit-large body r.body there large) in
          (elim code [ inl c ↦ inl c | inr c ↦ inr (inr (inr c)) ], same))
