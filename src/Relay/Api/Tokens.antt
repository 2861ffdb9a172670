-- ===== src/Relay/Api/Tokens.antt =====
-- `handleAgentWS` of internal/relay/ws_agent.go up to the read loop, in two parts: a device's token is looked
-- up, and once the socket is accepted, the device's agent is registered in the hub. In between, other
-- handlers run.
use terminal_x.Common.{ℕ, String, Option}
use terminal_x.Relay.Hub.Agents.{agent_connect}
use terminal_x.Relay.Persisted.{device_info}
use terminal_x.Relay.Store.{Device, device_by_token_hash}
use terminal_x.Relay.Api.{Library, Relay, Body, Cookie, Reply, Step, hash_token}

-- The device that a token lets in; for `none` the answer is 401.
unfoldable pub agent_device : Library → String → Relay → Option Device
agent_device lib tok r = device_by_token_hash (hash_token lib tok) r.store

unfoldable pub register_agent : Device → ℕ → ℕ → Relay → Step
register_agent d conn now r =
    let (hub, out) = agent_connect r.hub conn (device_info d) now in
    (Reply.answer 101 Cookie.kept Body.ok, out, record r { hub = hub })
