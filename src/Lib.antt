-- ===== src/Lib.antt =====
-- Zagforge: the job pipeline of the API and worker services with its webhook endpoint, callbacks and
-- job tokens, the organizations and context links of the API service and its rate limit, and the
-- organizations, sessions, backup codes, failed logins and webhook deliveries of the auth service.
--
-- Jobs. A push on GitHub becomes a queued job (services/api/internal/service/job.go, HandlePush), or
-- updates the commit of the job that waits for the branch. The worker's poller claims the oldest
-- queued job (services/worker/internal/worker/poller/poller.go), the worker reports the start and the
-- end over two callbacks (services/api/internal/handler/callback/start.go and complete.go), and the
-- watchdog fails the jobs that run too long (services/api/internal/handler/watchdog/watchdog.go). They
-- share the tables jobs, repositories and snapshots through services/shared/go/store/.
--
--   Jobs/Model      the rows of the tables and the job status (models.go, types.go)
--   Jobs/Queries    the SQL statements (jobs.sql.go, snapshots.sql.go, repositories.sql.go)
--   Jobs/Push       JobService.HandlePush
--   Jobs/Callback   Handler.Start and Handler.Complete with their request types (dto.go)
--   Jobs/Poller     Poller.claimOne and Poller.pollBatch
--   Jobs/Watchdog   Handler.Timeout
--   Jobs/Queue, History, Validity, Rows    facts about the tables
--   Jobs/Lifecycle  any sequence of the operations above, as a step relation
--
-- Organizations. Members with the roles owner, admin and member manage an organization and invite
-- others by a token (services/auth/internal/handler/org/, handler/invite/, handler/helpers.go), over
-- the tables of services/auth/internal/store/.
--
--   Orgs/Model      the rows of the tables (models.go)
--   Orgs/Queries    the SQL statements (organizations.sql.go, invites.sql.go, audit_logs.sql.go)
--   Orgs/Access     replies, role checks and the audit entry (helpers.go, org.go, audit.go)
--   Orgs/Settings   Create, Update and Delete (org.go)
--   Orgs/Members    UpdateMemberRole, RemoveMember and TransferOwnership (members.go)
--   Orgs/Invites    Create, Revoke and Accept (invite.go)
--   Orgs/Owners, Untouched, Authority    facts about owners, members and rights
--   Orgs/Lifecycle, Accepted, Spent      sequences of calls, and what they do to a used invite
--
-- Sessions. A refresh token is exchanged for a new pair of tokens, and a user ends sessions one by one
-- or all together (services/auth/internal/handler/session/).
--
--   Sessions/Model      the rows of sessions and refresh_tokens (models.go)
--   Sessions/Queries    the SQL statements (refresh_tokens.sql.go, sessions.sql.go)
--   Sessions/Refresh    Handler.Refresh (refresh.go)
--   Sessions/Logout     Handler.Logout, LogoutAll and RevokeSession (logout.go, sessions.go)
--   Sessions/Stored, Spent    facts about a stored and a revoked token
--   Sessions/Lifecycle  any sequence of the operations above, as a step relation
--
-- Webhooks. Events of an organization are delivered to its subscribers and retried with a growing
-- delay (services/auth/internal/service/webhook/dispatcher.go).
--
--   Webhooks/Model        the rows and the SQL statements (models.go, webhooks.sql.go)
--   Webhooks/Dispatcher   Dispatcher.DeliverPending, processDelivery and recordFailure
--   Webhooks/Dispatcher/Attempts, Tries, Runs    one attempt, one run and run after run
--
-- Backup codes. A login that waits for the second factor is completed by a single-use code
-- (services/auth/internal/handler/mfa/challenge.go).
--
--   Mfa/Model    the rows and the SQL statements (models.go, mfa.sql.go, sessions.sql.go)
--   Mfa/Backup   Handler.BackupCodeVerify and issueTokens (challenge.go, service/session/session.go)
--
-- Failed logins are counted by identifier and by address (services/auth/internal/service/security/).
--
--   Security    Service.IsBlocked and RecordFailure (bruteforce.go, failed_logins.sql.go)
--
-- Teams. The organizations of the auth service have teams
-- (services/auth/internal/handler/team/team.go and members.go).
--
--   Teams/Model, Queries    the rows and the SQL statements (models.go, teams.sql.go)
--   Teams                   Create, Get, Update, Delete, AddMember, RemoveMember, UpdateMemberRole
--   Teams/Steps, Outcomes   the role check that they share, and how each of them ends
--   Teams/Authority         who may call them
--   Teams/Tidy, Lifecycle   the keys of the tables, and any sequence of calls
--
-- API organizations. The API service keeps its own organizations and members
-- (services/api/internal/handler/org/handler.go), and brings users and organizations of the auth
-- service in when a request comes (services/api/internal/middleware/auth/scope.go).
--
--   Workspace/Model      the rows (services/shared/go/store/models.go)
--   Workspace/Queries    the SQL statements (memberships.sql.go, organizations.sql.go, users.sql.go,
--                        audit_log.sql.go)
--   Workspace/Handlers   CreateOrg, UpdateOrg, DeleteOrg, InviteMember, UpdateMemberRole, RemoveMember
--   Workspace/Owned, Lifecycle, Ranks    facts about owners, sequences of calls and rights
--   Workspace/Scope      Scope, ensureUser and ensureOrg
--   Workspace/Scope/Settled, Requests, Blind    one request, sequences of them, what it does not read
--
-- Job tokens. A worker calls the callbacks with a token that the API signed for the job
-- (services/shared/go/jobtoken/jobtoken.go, services/api/internal/middleware/jobtoken/jobtoken.go).
--
--   JobToken             Signer.Sign and Signer.Validate, on bytes
--   JobToken/Decimal     the decimal numbers of strconv and fmt
--   JobToken/Middleware  Auth in front of the callbacks of Jobs/Callback
--
-- GitHub. A webhook is verified and handed to the push service
-- (services/api/internal/handler/webhook/webhook.go, services/shared/go/provider/github/client.go).
--
--   Jobs/Hook    Handler.ServeHTTP with ValidateWebhook, in front of Jobs/Push, and its route: the body
--                limit, RequireJSON (middleware/contenttype/contenttype.go) and the rate limiter
--   RepoList     ClientHandler.ListRepos
--
-- Context links. A token lets somebody read the context of a repository by a link
-- (services/api/internal/handler/contexturl/context.go, handler/contexttokens/handler.go).
--
--   Context/Model    the rows (services/shared/go/store/models.go)
--   Context/Queries  the SQL statements (context_tokens.sql.go, context_token_allowed_users.sql.go)
--   Context/Visit    Handler.Head, Get and checkVisibility
--   Context/Manage   Handler.Create, UpdateAllowedUsers and Delete
--   Context/Reach    any sequence of the operations above
--
-- Rate limits. Requests of one client are limited over a sliding window
-- (services/api/internal/middleware/ratelimit/ratelimit.go).
--
--   RateLimit    checkRateLimit over an interface of Redis' sorted set
--
-- A handler is a computation over the tables that goes on or answers early (Prelude/Flow). What was
-- written before an early answer stays written, except inside a transaction, where it is rolled back.
-- Which statements fail is an argument of every call, one Boolean for each statement and each pass of a
-- loop, and a theorem that needs a statement to go through says so. Prelude/FlowLaws and
-- Prelude/Outcome have one rule for each step: the first for a property of the tables, the second for an
-- answer together with the tables that it leaves.
--
-- A UUID, an int64 key and a timestamp (in microseconds) are natural numbers, a nullable column is an
-- Option, a role is the text of its column. A call runs as a whole, and a sequence of calls is one call
-- after another; the two statements of a claim count as one step. The code rules out some overlaps: the
-- callbacks lock the row of the job, two pushes for one branch exclude each other by an advisory lock,
-- and the watchdog is a single statement. It does not rule out others, which the model leaves out: the
-- poller takes no advisory lock, so it can claim the job of a branch between the read and the write of a
-- push, and the organization handlers of the API count the owners and then write, in two statements
-- without a transaction, so overlapping calls can do what no sequence of calls does.
--
-- The conversion of a member count to int32 wraps around as in the code. The loops of the code run over
-- rows, over a text or over the free slots of the worker, except the pagination of RepoList, whose fuel
-- is a number of pages: one more than the repositories that GitHub announces is enough when no page is
-- empty before all of them have been shown. The digits of a number take one unit of fuel more than the
-- number, which is always enough.
--
-- Parameters stand for what is not code of the repository: the validator's uuid and email rules,
-- the UUID scanner, SHA-256, HMAC, JWT, encoding/json, mime.ParseMediaType, Redis, the random token, bcrypt, the
-- receivers of webhooks, the GitHub client, the task queue and the clock; issuing an access token
-- and checking an MFA challenge token, which write nothing, are parameters too.
--
-- Not modelled: HTTP routing and JSON, logging, the listing endpoints, login with OAuth and TOTP,
-- webhook subscriptions, cookies, the text behind a context link, the streaming query
-- endpoint, the analyser run by the worker, configuration and infrastructure. Of the tables,
-- columns that no modelled code reads are left out, so is the auth service's table of users: a
-- statement that fails on it is a failing statement.
pub mod Prelude
pub mod Jobs
pub mod Orgs
pub mod Teams
pub mod Sessions
pub mod Webhooks
pub mod Context
pub mod JobToken
pub mod RateLimit
pub mod RepoList
pub mod Workspace
pub mod Security
pub mod Mfa
