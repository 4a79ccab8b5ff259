-- ===== src/Lib.antt =====
-- The JavaScript of the repository: the adapter in front of the coding agents (agent-adapter) and
-- the web pages of the token service (pat-service/web).
--
-- The adapter is an HTTP server (agent-adapter/server.mjs). A request is a turn of a chat: the
-- server tests the key and reads the body (Server/Http.antt), names the chat (`sessionKey`,
-- `chatKey`, `promptHash`: Server/Keys.antt), checks that the messages continue what the agent has
-- received (`continues`: Server/History.antt), waits for earlier turns of the chat (`serialize`:
-- Server/Queue.antt), calls the backend, and reports what the backend does as events (`turn`:
-- Server/Turn.antt) or as a chat completion (Server/Completion.antt). `main` is in
-- Server/Start.antt, and the history file, with the crashes that may cut a save short, in
-- Server/Disk.antt. Server/Queue/Refine.antt has the abstract lines of turns that the promises of
-- `serialize` implement. The backend is an ACP agent behind JSON-RPC (agent-adapter/acp.mjs),
-- opencode behind HTTP (agent-adapter/opencode.mjs), or the pi SDK (agent-adapter/pi.mjs,
-- Pi.antt); agent-adapter/dsh.mjs is an ACP agent with a web page beside it (Dsh.antt for the
-- launch token of that page and the log, Dsh/Launch.antt for the processes).
--
-- Of the ACP client, the requests and responses are in Acp/Rpc.antt, `sessionID` in
-- Acp/Sessions.antt, the updates of a turn in Acp/Updates.antt, `toolText` and `inputText` in
-- Acp/ToolText.antt, `pick` and the answers to permission requests in Acp/Options.antt.
-- Acp/Dispatch.antt is the handler of the agent's lines with what `prompt` registers, for all
-- turns of the agent together. `start` is in Acp/Launch.antt, `migratePiSessions` in
-- Acp/Migrate.antt. Of opencode, the event stream is in Opencode.antt, with its loop over lines in
-- Opencode/Lines.antt, `prompt` in Opencode/Turns.antt, `sessionID` in Opencode/Sessions.antt,
-- `call` and the wait for the server in Opencode/Startup.antt, its process in
-- Opencode/Launch.antt.
--
-- Server/Chats.antt puts turns and `serialize` together: a job has the number of its turn's call,
-- it begins with the turn's body and settles when the turn is over; chat completions are jobs
-- without a turn. Adapter.antt puts server and client together: the jobs of `serialize`, the
-- sessions and the registrations of `prompt` are one state, whose steps are those of its parts
-- (Adapter/Entering.antt has a job that takes its session; Server/Queue/Jobs.antt and
-- Server/Queue/Moves.antt what the queue makes of one job). Consent.antt follows a permission
-- request over both: the promises that `onPermission` returns stand beside the client's `asks`, in
-- their order. Acp/Sessions/Given.antt tells where a session comes from.
--
-- The pages are React components. Web/Dashboard.antt has the handlers of
-- pat-service/web/src/main.jsx as functions from the answers of their requests to the state that
-- they leave, Web/Pages.antt the paging of sessions as a step relation, Web/Heatmap.antt and
-- Web/Format.antt the heatmap and the durations, Web/Units.antt the numbers of bytes,
-- Web/Admin.antt the choice of a screen in pat-service/web/src/admin/AdminApp.jsx,
-- Web/Journal.antt its audit log with the requests in flight (in Web/Admin.antt with one request
-- at a time), Web/Users.antt its list of users, Web/Detail.antt the filters and lists of
-- pat-service/web/src/admin/UserDetail.jsx. Web/Replies.antt is what a request answers.
--
-- State and asynchrony. Where the order of events matters, the state is a record and each thing
-- that can happen next (a call, a promise that settles, a timer, a closed connection, a message)
-- is a step; the theorems hold in every state that steps reach. A turn's closure variables are a
-- record under the turn's id. Code that may throw gives a `Result` (Js.antt) or an option.
--
-- Assumed of what is outside: an agent answers session/new with an id that it has given to no
-- other chat (`IsFresh`), and the map that is read from disk has no session twice (`IsApart`); the
-- awaits of `sessionID` are one step, since no other turn of the chat runs and other chats have
-- other entries.
--
-- Data. A text is its list of UTF-16 code units. JSON is a data type in Js.antt, with the
-- properties, truthiness and conversions to a string that the code uses; a number is its printed
-- text. Maps are association lists in insertion order (Base/Maps.antt).
--
-- Bounds and fuel. `cut_with` and `weeks_with` run on fuel: the length of the buffer and of the
-- list of cells, of which each pass takes at least one. Request bodies end at 32 MiB as in the
-- code. `wait` counts its attempts on fuel; 602 are enough. All else is structural recursion.
--
-- Parameters: SHA-256, the UTF-8 encoding and the decoding of a chunk, JSON.parse, JSON.stringify, the path of a URL, the
-- printing of dates, decodeURIComponent, the `join` of paths, the directories of pi's sessions,
-- and what the agents, the opencode server and the pi SDK answer.
--
-- Not modelled: rendering; child processes and sockets, except where a write or a read may fail;
-- the mode of files and of directories that are made; logging, but for the lines of `dsh web`; a write that fails between the two files of a migration;
-- chat ids that name properties of Object.prototype, which the plain objects `history` and `map`
-- would find; the signals of the process; the requests in flight of a user's detail and of the
-- overview, the charts of the pages; the services in Go and the deployment. A heatmap level
-- compares products in place of the quotient, which is exact for counts below 2 ^ 50.
mod Base
pub mod Js
pub mod Server
pub mod Acp
pub mod Adapter
pub mod Consent
pub mod Dsh
pub mod Opencode
pub mod Pi
pub mod Web
pub mod Examples
