-- ===== src/Lib.antt =====
-- The verification library of the agent platform: tasks that coding agents work on, the webhook that
-- reacts to CI, the approvals that users give, and the chat session of a task.
--
-- The program's parts and how they interact. A task is a row in Postgres (src/db/models/task.py, read
-- and written by src/db/queries/task_query.py). The task service (src/services/task_service.py)
-- creates it and starts its pipeline in the background, which opens a chat session
-- (src/agents/chat/session.py): the session takes user messages from a queue in Redis
-- (src/utils/task_input_queue.py), runs a turn of the agent for each, and ends on a request, on one of
-- its two timeouts (src/agents/chat/lifecycle.py) or on an error. Before an agent's tool runs, a hook
-- (src/agents/sdk_agent.py) asks the user unless a pattern allows the tool; it waits at the permission
-- gate (src/agent_tools/permission_gate.py) for the answer that the web socket view
-- (src/api/websocket/task_stream_view.py) records. When CI has run, the webhook
-- (src/services/webhook_service.py) completes the task, starts a fix, or gives up after the configured
-- number of attempts. Every part publishes events for the clients of the task.
--
-- A task runs on an agent of its user, which bundles subagents from a catalog
-- (src/services/agent_service.py, src/db/queries/agent_query.py). The secrets that the tools need are
-- credentials in an encrypted table with an audit log (src/credentials/), among them OAuth tokens that
-- are refreshed as they are read. After each turn the repositories of the task are published
-- (src/agents/chat/turn_handler.py), and the SDK mirrors the transcript of its session to S3
-- (src/agents/chat/s3_session_store.py).
--
-- Which file models which part:
-- - Prelude and its children: the shared names, equality as an instance argument, lists, dictionaries
--   in insertion order, tables of rows, texts as code points.
-- - Effect: exceptions and actions on a state; `transaction` is a database session that is rolled back
--   when its body raises. Effect/Preserves has the rules for invariants, Effect/Inversion what an
--   action did that returned.
-- - Json, World: JSON values; the database rows, the published events, the background jobs, the active
--   sessions, and what Redis holds for the gate.
-- - Task: `TaskRepository`, function for method. Task/Service: `TaskService`.
-- - Webhook: `WebhookService`. `handle_workflow_run` is cut into `on_task`, `on_status`,
--   `on_conclusion` and `on_failure` in the order of its guards, `_run_devops_fix` into `attempt_fix`,
--   `finish_fix` and `report_fix_failure`. Webhook/Branch: the branch pattern and the lookup,
--   Webhook/Form what it accepts.
--   Webhook/System: deliveries, fixes and the task service in any order.
-- - Approval: `TaskApprovalRepository`, `TaskMessageRepository`. Approval/Gate: the gate as a step
--   relation, one step from each `await` to the next, with any number of answers. Approval/Answer:
--   `_handle_approval_response`, with what the database and Redis answer as an argument, `Calls`.
--   Approval/Request: `AskUserTool.run`. Approval/Hook: the PreToolUse
--   hook.
-- - Chat/Lifecycle, Chat/InputQueue, Chat/Session: the classes of those names. Chat/Registry:
--   `ChatSessionService`, one step for each method.
-- - Credential: `CredentialRepository`, `CredentialEventRepository`, the rows. Credential/Payload: the
--   kinds and their handlers. Credential/Service: `CredentialService`. Credential/Refresh:
--   `CredentialResolver`, `OAuthRefresher`, `OAuthTokenProvider`. Credential/Adapter: `OAuthAdapter`,
--   `OAuthStateSigner.verify`, `TokenBundle`. Credential/Flow: `OAuthCredentialService`, with `connect`
--   for its `handle_callback`. Credential/Operations: all of these as one kind of operation. The other
--   children hold proofs.
-- - Transcript: `S3SessionStore` over a bucket as a map. Transcript/Refinement: the list of entries for
--   each key that it implements.
-- - Agent: `AgentRepository` and a database session that can be rolled back. Agent/Links: its methods on
--   links. Agent/Catalog: the catalogs' repositories. Agent/Service: `AgentService`. Agent/Apart,
--   Agent/Sound, Agent/Runs: the unique indexes, and requests in any order. Agent/Owned: ownership.
-- - TurnHandler: `build_post_turn_callback` and `_publish_turn`.
-- - Recovery: `LLMJsonParser` (src/utils/json_parser.py), which the publisher reads the answer of a
--   model with.
-- - Samples and the modules called Tests: concrete states, and each theorem at one of them.
--
-- Bounds and fuel. Ids, times and counts are natural numbers; Python's integers do not overflow. Where
-- the source takes `max(0.0, ...)` subtraction stops at 0. The loop of a chat session is on fuel: one
-- round for each tick of the hard timeout and one more are enough, if each round either blocks on the
-- queue or has an answer of the agent, and both take a tick (a second). All other functions are
-- structural. Primary keys are unique by assumption, which the theorems that need it state.
--
-- What is not modelled, and why. Code of libraries is an argument where it matters: HMAC, `json`,
-- `fnmatch`, `str` and `strip`, the Claude SDK, the agents. Logging is left out. Calls of the database and of Redis that fail are modelled where an answer to an
-- approval is stored and where a session is torn down, and nowhere else. The decision of an
-- approval expires in Redis after 24 hours, which the gate leaves out. JWT, Authlib, Fernet, S3 and the
-- conversions of pydantic are arguments as well; a call of S3 that fails, and the URL that starts an
-- OAuth flow, are left out. The tool policies of users, the orchestrator, the publisher and the
-- subscriber side of the broadcaster are not modelled; views, schemas, settings and provider
-- integrations are glue around libraries.
pub mod Prelude
pub mod Effect
pub mod Json
pub mod World
pub mod Task
pub mod Webhook
pub mod Approval
pub mod Chat
pub mod Credential
pub mod Transcript
pub mod Agent
pub mod TurnHandler
pub mod Recovery
pub mod Samples
