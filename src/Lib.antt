-- ===== src/Lib.antt =====
-- terminalX lets a browser console drive the terminals of one's own machines. An agent on each machine
-- (cmd/tx-agent, internal/agent) runs shells and AI command line tools in pseudo terminals
-- (internal/session), takes their hooks (internal/hooks) and keeps one WebSocket to a relay
-- (cmd/tx-relay, internal/relay), which also serves the consoles. Control messages are JSON, terminal
-- bytes travel in binary frames (internal/proto).
--
-- Common: names of the libraries, conditionals, lists, integers, and Go maps as association lists whose
--   iteration follows the list.
-- Proto.Frame: internal/proto/frame.go. A byte is a number, `marshal`, `unmarshal`, `peek_header`, `chunk`
--   and the payloads are the functions of those names; wrap-around at 2^16, 2^32 and 2^64 is written out.
--   `chunk_loop` runs on the length of the payload as fuel, and a round takes a byte at least.
-- Proto.Messages, Proto.Envelope: internal/proto/messages.go. A string type with known values is a data
--   type with one constructor for every other text; one record is the envelope.
-- Session.Ring: internal/session/ring.go. The buffer is a list, indices and the uint64 offset are numbers.
-- Session.Heuristic: internal/session/heuristic.go, `Evaluate` and `MatchPrompt`. The pattern of
--   `MatchPrompt` is written out on lists of code points.
-- Session.Output: `emit`, `flush` and `Replay` of internal/session/session.go; a delivery is a call of OnOutput.
--   Delivered and Replayed are about the stream, Session.Ring holds its end. A replay is a flush and a look at the
--   ring, with other appends possible in between; `replay` is the case of none, which the agent's handlers use.
-- Session.Cmdline: internal/session/cmdline.go. Sh is a reader of the command line with the special characters of
--   POSIX, Toml one of an array of basic strings; neither uses the code's own lists or tests of characters.
-- Session.Life: the rest of internal/session/session.go. What holds the mutex is one function; a process is a
--   number, and what the machine answers is an argument. Start is `start`, Adopt and NewSID, Ends the ends; Steps is the
--   session as a transition system, in which each process has a `waitLoop` of its own.
-- Hooks.Approvals: internal/hooks/approvals.go, the `Store`. A channel with one place is an entry of a map,
--   so that an approval and the handler that is blocked on it share it; `receive` is the handler's
--   receive in internal/hooks/server.go.
-- Hooks.Server: internal/hooks/server.go and the inputs of claude.go. Serve is the way of a request to its
--   handler, and the health check, Codex the handlers of Codex. A permission request that waits is two steps, before the select and
--   its branch. The hash, JSON and strconv are the record Library.
-- Agent: internal/agent/agent.go and handle.go, between the sessions, the hooks and the relay; what it sends or
--   asks of a process is an effect. Consoles follows the frames of an attach through the relay. Messages is
--   handle.go, Opening `openSession`, Presets internal/presets/presets.go. Persist is persist.go, with the
--   directory of a session as an entry by its id.
-- Relay.Hub: internal/relay/hub.go, ws_agent.go, ws_client.go and the state of server.go. The hub's mutex
--   makes a critical section one step; a connection is a number; what a handler sends, stores, closes or
--   logs to the audit is a list of outputs. Agents and Upserts are the agent's handlers, Clients and
--   Requests the console's, Frames the data frames, Approvals the approvals. Steps is the hub as a
--   transition system of the WebSocket handlers of agents and consoles, the decision over HTTP and the revocation;
--   a decision whose key the cache does not have is two critical sections. The new devices and names of the other
--   HTTP handlers are not among its steps.
-- Relay.Auth: internal/relay/auth.go, `lockout` and `loginSessions`.
-- Relay.Store: internal/relay/store/store.go. A table is the list of its rows, Sql the statements on it. Times is the
--   texts of the time columns, which SQLite compares; Go's calendar is a parameter. Codes is the pair codes,
--   Records the rest. Steps is the store as a transition system of all its writes.
-- Relay.Persisted: what the hub's outputs write to the store, and `loadState` of server.go.
-- Relay.Pairing: internal/relay/pair.go, on code points.
-- Relay.Api: internal/relay/api.go and the rest of auth.go, on the hub, the store, the lockout and the logins together.
--   Logins, Pairs and Console are the handlers, Tokens the way in of an agent, in two parts: its token, and later its
--   registration. Handled is the relay as a transition system of the handlers, each run whole, and of registrations
--   while the device is not revoked. A handler takes a decoded body and answers with a status and a body.
--
-- The notifier of the relay is not modelled. In Relay.Hub a row that the code reads is an argument,
-- and what it writes is an output; Relay.Persisted and Relay.Api join them with the store. Random ids
-- are arguments. Time is a number of nanoseconds, 0 the zero time of Go. Socket loops, queues, HTTP,
-- JSON, files, processes, tmux and failures of the database are left out; a time is a text of RFC 3339
-- up to the year 9999. In the agent, a call of the store or of a session is a part of the step of the
-- handler that makes it; a restart of a tool is two steps. A message to a connection whose queue is
-- full closes the connection, which shows as a later disconnect. Of what the agent keeps, the
-- round-trip time and the heartbeat's number are left out.
pub mod Common
pub mod Proto
pub mod Session
pub mod Hooks
pub mod Agent
pub mod Relay
