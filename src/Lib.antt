-- ===== src/Lib.antt =====
-- The core of PicoClaw (a personal assistant in Go): an agent that answers messages with a language
-- model and tools, a scheduler, a heartbeat, sessions with summaries, and the migration of an
-- OpenClaw installation.
--
-- How the parts interact: channels publish inbound messages on the bus; the agent takes them, builds
-- the messages for the model from the session and its summary, runs the tools that the model calls,
-- records everything in the session and publishes the answer. The scheduler and the heartbeat call
-- back into the agent. Long sessions are summarized by a thread of their own.
--
-- Files and the code that they model (paths from the repository's root):
--   Base, Base/*        lists over native numbers, text as bytes, maps, int64, numerals, strings
--   Utils               pkg/utils: Truncate (string.go), Runes for the conversion of Go it uses, and
--                       Media (IsAudioFile and SanitizeFilename of media.go)
--   Json                decoded JSON values and the getters of pkg/migrate/config.go
--   Providers           pkg/providers: Types (types.go), Select (CreateProvider) and Http (Chat and
--                       parseResponse) of http_provider.go, Codex (codex_provider.go); Owner, Answered,
--                       Calls and Fresh prove
--   Auth                pkg/auth/store.go: Store; Laws proves
--   Skills              pkg/skills/loader.go: Text (front matter, XML), Loader; Escape, Front, Listing
--                       and Agreement prove
--   Bus/Queue           pkg/bus/bus.go and types.go; Bus/Fifo has its proofs
--   Tools/Registry      pkg/tools/registry.go, base.go; Tools/Dispatch has its proofs
--   Tools/Files         pkg/tools/filesystem.go and append_file of edit.go; Files/Edit is edit_file;
--                       Files/Once and Files/Effects prove
--   Tools/CronTool      pkg/tools/cron.go: Actions (Execute), Firing (ExecuteJob, and
--                       ProcessDirectWithChannel of loop.go); Ids, Reminder and Silent prove
--   Tools/Subagent      pkg/tools/subagent.go, spawn.go, message.go: Manager, Chat (the two tools), Run
--                       (the threads as steps); Ids, Outcome and Return prove
--   Tools/Web           pkg/tools/web.go: Text (extractText), Search, Fetch; Limits proves
--   Tools/Shell         pkg/tools/shell.go: Exec; Guard proves
--   Cron                pkg/cron/service.go: Types, Schedule (computeNextRun), Store (the file), Jobs
--                       (AddJob, RemoveJob, EnableJob, ListJobs, Status), Run (checkJobs, executeJob,
--                       Start, Stop, the loop, the steps of a system); the other files prove
--   Session             pkg/session/manager.go: Manager (memory), Encode (what JSON makes of a
--                       session), Storage (files); History, Race and Reload prove
--   Agent               pkg/agent: State, Memory (memory.go), Context (context.go), Route (origins),
--                       Loop (runLLMIteration), Process (runAgentLoop, processMessage, Run), Summary
--                       (summarizeSession); Transcript, Bounds, Answer, Nameless and Summary/Effect
--                       prove
--   Channels            pkg/channels/base.go and manager.go: Base, Manager; Gate and Delivery prove
--   Channels/Telegram   markdownToTelegramHTML of pkg/channels/telegram.go: Patterns (its regular
--                       expressions), Markup; Codes proves
--   Channels/Slack      pkg/channels/slack.go: Client; Reply proves
--   Heartbeat/Service   pkg/heartbeat/service.go; Heartbeat/Silence has its proofs
--   Config              pkg/config/config.go: Types, Defaults
--   Migrate             pkg/migrate: Keys (camelToSnake, convertKeysToSnake), Convert and Channels
--                       (ConvertConfig), Merge (MergeConfig), Plan (workspace.go), Execute (Execute,
--                       copyFile of migrate.go); Snake, Choice, Laws, Guard, Count and Backup prove
--   */Tests             the theorems at concrete inputs
--
-- Correspondence: a Go function is a function of the same name in snake case; the state that it
-- changes is an argument and a result, errors are values, clocks and the outcomes of system calls are
-- arguments, and code under a lock is one step. Goroutines are step relations (Cron/Run,
-- Heartbeat/Service) or a function that stands for what others do meanwhile (Agent/Summary). Text is a
-- list of bytes. int64 is an integer that wraps where the code adds.
--
-- Bounds and fuel: the loop of runLLMIteration has max_iterations as its fuel, which is its bound in
-- the code. strings.Count has the length of the text as fuel, since each turn takes at least a byte.
-- All other recursion is structural.
--
-- Parameters: the cron library (next_tick), the model and the text of the system prompt (Env), paths
-- and decimals (Paths), the file system's view for plans (System), JSON for the migration (Codec), the
-- shell with regular expressions (Shell), the files of skills (Fs), HTTP and the decoding of its
-- answers (Providers/Http, Tools/Web), the clients of the platforms (Channels/Base, Channels/Slack),
-- and system faults (Faults, WriteOutcome, SaveOutcome).
--
-- Not modelled: the connections to the messaging platforms, the provider of Claude, OAuth, voice,
-- logging and the command line, which are mostly input and output. Keys that are converted, names of models and commands are
-- taken for ASCII.
pub mod Base
pub mod Json
pub mod Providers
pub mod Bus
pub mod Tools
pub mod Cron
pub mod Session
pub mod Agent
pub mod Heartbeat
pub mod Config
pub mod Migrate
pub mod Channels
pub mod Utils
pub mod Auth
pub mod Skills
