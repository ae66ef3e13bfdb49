-- ===== src/Lib.antt =====
-- uruflow: a server that deploys repositories with docker on machines where an agent runs.
--
-- An agent dials the server over TCP, logs in with its token and stays connected; messages in both
-- directions are frames of a small binary protocol (internal/tcp/protocol). The server
-- (internal/tcp) keeps one connection for each agent, stores what agents report in SQLite
-- (internal/storage/sqlite), raises alerts (internal/logic), and sends commands. A deployment is
-- asked for by hand or by a push that GitHub or GitLab reports (internal/services,
-- internal/api/handlers); the agent then reports how it goes, and the server keeps the record.
--
-- Files, by the part that they model:
--  Prelude       Boolean tests, lists with native lengths, byte strings, keyed and numbered
--                rows, integers, sorting
--  Protocol      internal/tcp/protocol/protocol.go and message.go: EncodeHeader, DecodeHeader,
--                Message and its payloads (Payloads, MessageType); Stream is Reader.Read of reader.go
--                and the read loop readMessages of internal/agent/daemon/daemon.go, on a connection
--                that is a list of bytes and expired deadlines; Header, Framing and Loop prove
--  Models        internal/models/models.go; Float is the exact value of a float64 reading
--  Alerts        internal/logic/alerts.go; Severity proves
--  Config        internal/config/config.go; Files is Load and Save; Registry and Saving prove
--  Storage       internal/storage/sqlite: a table is a list of rows; one child for each file, with one
--                function for each statement; Stats is GetStats of store.go; Integrity states the
--                constraints of schema.go and proves that all statements keep them; Lookup relates
--                the writing statements to the queries by id
--  Server        internal/tcp/server.go and connection.go: Connections has the methods of a
--                connection, Registry the map from agents to connections, Auth authenticate, Metrics
--                handleMetrics (its child Alerting proves that alerts are not doubled), Commands
--                the four handlers of deployment reports, Dispatch processMessage, handleMessages and
--                handleConnection; Sessions has the interleavings of the handlers as a step relation,
--                its child Stale what a late clean-up does
--  Services      internal/services/deployment.go: TriggerDeploy, for which Sending proves why it
--                ends and Trigger what it leaves; Webhook is
--                internal/services/webhook.go and internal/api/handlers/webhook.go
--  Agent         internal/agent: Deploy is deploy/deploy.go (resolveCommand, cloneOrPull, Execute), its
--                child Plan states the list of commands that a deployment is; Docker is
--                docker/docker.go (ListContainers, GetContainerStats, StreamLogsWithTail), Frames
--                writes its log streams; Daemon is daemon/daemon.go (connect, authenticate,
--                handleMessage, disconnect), Tasks its handleCommand, handleDeploy,
--                handleContainerLogsRequest and sendMetrics, Streams the interleavings of all of
--                these as a step relation; Verdict, Overlap and Lines are about what is sent; Metrics is
--                metrics/collector_linux.go and metrics.go, Settings is config/agent_config.go
--  Delivery      a deployment through the whole program: Request from TriggerDeploy to the message for
--                the agent, Completion from there to the tables, over handleMessage and handleCommand
--                of the agent and handleMessages of the server; Streaming is the way of a container's
--                lines from the agent over the server and the channel of tui/model.go to the screen
--  Helper        pkg/helper/tui.go: SplitLines, CountLines, CenterText, FormatBytes, TruncateString
--  Tui           internal/tui: Switch has the keys that Update of model.go takes before the views;
--                the views of views/ are Agents (agents.go), Repos (repos.go), ContainerLogs
--                (container_logs.go), Logs (logs.go), Alerts (alerts.go) and Setup (init.go), each
--                with a model, its messages and its Update; Commands below Agents and Repos has
--                what their commands do (addAgent, deleteAgent, addRepo, deleteRepo, triggerDeploy);
--                RepoState has the model of Repos; Rows is what fetchAgents, fetchRepos and fetchAlerts
--                read; Dialog is components/dialog.go, Channel the channel of model.go; Run
--                has the runs of a view, Cursor indices past the end
--  Tests         the theorems at concrete inputs
--
-- State and time. Handlers are functions from the server's state to its state. Connection objects
-- live on a heap and are named by their ids, so that the map and a handler may share one. The clock
-- is an argument of a handler, in nanoseconds; random ids are drawn from a stream. A step of
-- Sessions is an operation under the server's lock, or the handling of one message as a whole; finer
-- interleavings inside a handler are not modelled. TriggerDeploy runs with no other handler between
-- its look-up of the agent and its sending. An agent's context is a number, in the order in which its
-- log streams begin, and a stream is cancelled when its number is on the list. The tasks that an agent
-- runs beside its loop are given by their parts, which may interleave, and as a whole.
--
-- Parameters. encoding/json is a pair of functions for each payload type, HMAC and the parsers of
-- pushes are functions; of them only two theorems assume something: the completion of a deployment, that
-- JSON reads back the command and the verdict at hand, and the way of a container's lines, that it
-- reads back the payloads of these lines. The agent's machine is a record of
-- functions (programs, files, path/filepath) on a state that nothing is known of; what Docker's API
-- answers, once parsed, is an argument, and so are the divisions of floating-point numbers and the
-- printing of numbers. SQLite is modelled by its tables: a statement fails on a constraint and on
-- nothing else. Rows that are asked for by their time come in the order of the instants, which is that
-- of the stored texts as long as the server's zone keeps its offset.
--
-- The terminal's views are functions from a model and a message to a model and commands, where none is
-- an index out of range; a message may arrive at any time. The text field of the steps that add a
-- repository, the files, YAML, the printing of times and the reading of a port are arguments; KeepsTexts,
-- ReadsBack and ParsesBack say what is assumed of them, each where it is used.
--
-- Bounds and fuel. Header fields are bytes, and a payload length is taken modulo 2 ^ 32 where
-- EncodeHeader writes it. The read loop runs on fuel, one unit a round; one more unit than there are
-- arrivals is enough. A log stream runs on the number of rounds after which its context is cancelled.
-- FormatBytes divides at most six times, which is enough for a uint64.
--
-- Not modelled: NaN and infinite readings; failures of the disk; TLS, listening and the accept loop;
-- start-up, pid file and reconnect loop of the agent; white space other than ASCII in the lines of
-- containers; values of a command's payload that are not texts; the rendering of the terminal
-- interface, which may panic where it slices an id, its dashboard and the view of one deployment; the
-- command line and logging.
pub mod Prelude
pub mod Protocol
pub mod Models
pub mod Alerts
pub mod Config
pub mod Storage
pub mod Server
pub mod Services
pub mod Tests
pub mod Agent
pub mod Delivery
pub mod Helper
pub mod Tui
