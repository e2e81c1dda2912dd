-- ===== src/Lib.antt =====
-- A verification library for Companion AI, a chat companion with several characters.
--
-- The gateway (internal/gateway) takes messages from the web interface and from WeChat, checks a
-- user's daily quota (internal/quota) and calls the agent (internal/agent), whose application
-- (internal/orchestration) loads the history and the summaries, begins a batch in the store
-- (internal/conversation), plans which characters (internal/persona) speak, lets the model generate
-- their replies one after another and saves each.
--
-- Which file models which part:
--   Prelude        names and lemmas that the other files share: tests, lists, names, integers, text,
--                  association lists
--   Config         internal/config/config.go: `LoadGateway` and `LoadAgent` over the environment, and what
--                  cmd/gateway/main.go builds from the configuration (Config/Started)
--   Redis          the Redis server, a parameter: each command by its documented effect
--                  (Redis/Entries), a server in memory that meets them (Redis/Memory), and a call that
--                  the network may lose (Redis/Link)
--   Conversation   internal/conversation: turns, batches, scopes, Beijing dates (conversation.go), the
--                  keys and the members of the active sets (Conversation/Keys), the Lua scripts of
--                  structured_store.go (Conversation/Scripts), the reading of messages
--                  (Conversation/Messages), the operations of `RedisStore`
--                  (Conversation/Structured, Conversation/Days) and its older ones on turns, of
--                  redis_store.go (Conversation/Turns)
--   Persona        internal/persona/registry.go: `All`, `Find` (Persona/Registry), `ResolveAliases`
--                  (Persona/Aliases)
--   Quota          internal/quota/quota.go: the Lua scripts (Quota/Script), `NewRedis`, `Reserve`,
--                  `Settle` and `Snapshot` (Quota/Manager), the hash of a day as a ledger
--                  (Quota/Ledger, Quota/Invariant) and histories of calls (Quota/Histories)
--   Orchestration  internal/orchestration: `selectHistoryBatches` (Orchestration/Context),
--                  `planSpeakers` (Orchestration/Planning), the clean-up of replies
--                  (Orchestration/Reply), `Send` (Orchestration/Send), `ListSpaces`, `ListMessages`
--                  and `ClearToday` (Orchestration/Application), `MaintainDay`
--                  (Orchestration/Maintenance), its store as an interface (Orchestration/Store),
--                  `RedisStore` as an implementation of it (Orchestration/RedisStore), and the
--                  prompts of deepseek.go, internal/chat and internal/summarize with what is read of
--                  the answers (Orchestration/DeepSeek)
--   Agent          internal/agent/server.go: the messages that it sends (Agent/Wire), its handlers
--                  (Agent/Server), the codes of its errors (Agent/Definitive) and
--                  `RunDailyMaintenance` (Agent/Maintenance)
--   Auth           internal/auth: the checks of codes (Auth/Pending), the sessions (Auth/Sessions), and
--                  registration, login and reset over both and a table of users, which is a parameter
--                  (Auth/Service), of service.go; password.go (Auth/Password), admin.go (Auth/Admin)
--                  and mailer.go (Auth/Letter, Auth/Mailer)
--   Gateway        internal/gateway: the handlers that send a message (Gateway/Messages), the
--                  routes and the other handlers of api_handler.go (Gateway/Api), what
--                  agent_client.go makes of the agent's answers (Gateway/AgentClient),
--                  wechat_handler.go with dedupe.go (Gateway/Receive), and auth_handler.go
--                  (Gateway/Accounts)
--   Memory         internal/memory: the hooks of model.go and the archive of repo.go (Memory/Archive),
--                  over tables that are a parameter
--   Redisstore     internal/redisstore/redis.go: the ids of messages, the token cache, and the limiter
--                  with its windows (Redisstore/Window)
--   Wechat         internal/wechat/token.go, and the push of internal/gateway/cron.go (Wechat/Token); the
--                  messages after the maintenance, also of cron.go, with internal/wechat/kf.go
--                  (Wechat/Goodnight)
--
-- An instant is its number of Unix seconds; the messages of the agent have a fraction, too, which the
-- gateway does not show. An id of a message that was seen does not expire. A function that may fail returns a result or an option;
-- the state of the server or of the store is passed on. A Lua script is one step, as the server runs
-- it. SHA-256, Argon2, Base64, JSON, MIME, the format of dates and of numbers, the calls of the network,
-- the chat model and the repository are parameters.
-- Fuel: `batch_ranges` is given the length of the history and takes a message in each round,
-- `split_headers` and `strip_repeated` are given the number of characters plus one and take a
-- character in each round.
--
-- Not modelled: generated protocol code, the web interface and the serving of its files, logging, the
-- database of the tests and the deployment, which only call other code or are written in other
-- languages; the entry points but for what Config/Started has of them, and the health checks
-- (internal/gateway/health.go, cmd/agent/health.go), which connect the parts; the pictures of captchas
-- and the drawing of random texts in internal/auth; the single queries of internal/memory/repo.go; and
-- the schedule of internal/gateway/cron.go.
pub mod Prelude
pub mod Config
pub mod Redis
pub mod Conversation
pub mod Persona
pub mod Quota
pub mod Orchestration
pub mod Agent
pub mod Auth
pub mod Gateway
pub mod Wechat
pub mod Memory
pub mod Redisstore
