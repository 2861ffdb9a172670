-- ===== src/Relay/Hub/Tests.antt =====
-- A hub with one device, one session and one console, and the properties at it.
use Prim.Native.String.{◌++◌}
use terminal_x.Common.{
  ℕ, ◌≡◌, ◌≢◌, refl, true, false, ◌&&◌, none, some, List, [], ◌∷◌, arith, string_key, nat_key,
}
use terminal_x.Common.Maps.{lookup, insert, delete, adjust, map_entries, IsMap}
use terminal_x.Proto.Messages.{
  Approval, ApprovalStatus, ApprovalLevel, ApprovalMode, is_pending, is_hook, DeviceInfo,
}
use terminal_x.Proto.Envelope.{Msg, MsgType, DecisionText, blank}
use terminal_x.Proto.Frame.{ok, peek_header, frame_snapshot, frame_input}
use terminal_x.Relay.Hub.{
  Server, DeviceState, ClientConn, Out, owner_of, register_sid, forget_sid, forget_sids,
}
use terminal_x.Relay.Hub.Maps.{att, or_nil, put_att}
use terminal_x.Relay.Hub.Frames.{
  is_some, has_more, route_agent_frame, route_client_frame, deliver, frames_to, conn_of, is_input,
}
use terminal_x.Relay.Hub.Clients.{attach, client_connect}
use terminal_x.Relay.Hub.Requests.{handle_client_msg}
use terminal_x.Relay.Hub.Agents.{revoke_device, agent_connect}
use terminal_x.Relay.Hub.Upserts.{unknown_session, handle_agent_msg, on_session_upsert, upsert}
use terminal_x.Relay.Hub.Approvals.{
  decide_approval, decide_missed, Request, decided, announce, or_hint, conn_to, is_verdict,
}
use terminal_x.Relay.Hub.Attached.{Mirrored}
use terminal_x.Relay.Hub.Owners.{Owned}
use terminal_x.Relay.Hub.Routing.{
  reaches, entitled, passes, route_agent_frame_lem, route_client_frame_lem,
}
use terminal_x.Relay.Hub.Replay.{sees, waits, replay_lem, revoked_silent}
use terminal_x.Relay.Hub.Steps.{
  Reachable, Initial, start, later, client_connects, client_sends, agent_connects, agent_sends,
  Reachable-Owned,
}
use terminal_x.Relay.Hub.Decisions.{known, decide_approval_lem}

abbrev laptop : DeviceInfo
laptop = record {
  id = "d1";
  name = "laptop";
  os = "linux";
  agent_version = "1";
  online = true;
  last_seen = 5;
  rtt_ms = 0;
  fingerprint = "";
  power = "";
}

abbrev question : Approval
question = record {
  key = "k1";
  sid = 7;
  device_id = "d1";
  agent = "claude";
  tool = "Bash";
  summary = "rm";
  input = "";
  cwd = "/";
  level = ApprovalLevel.hook;
  mode = ApprovalMode.remote_first;
  created_at = 5;
  hook_timeout_at = none;
  status = ApprovalStatus.pending;
  decided_by = "";
  decided_at = none;
}

-- The device d1 is connected as 1 and owns session 7; the console c1 is attached and waits.
abbrev console : ClientConn
console = record { login_id = "l"; attached = (7, true) ∷ [] }

abbrev device : DeviceState
device = record { info = laptop; sessions = (7, unknown_session 7) ∷ []; conn = some 1 }

abbrev hub : Server
hub = record {
  devices = ("d1", device) ∷ [];
  clients = ("c1", console) ∷ [];
  sid_owner = (7, "d1") ∷ [];
  attachments = (7, ("c1", true) ∷ []) ∷ [];
  approvals = ("k1", question) ∷ [];
  agents = (1, record { device_id = "d1"; last_heartbeat = 5; rtt = 0 }) ∷ [];
}

hub-Mirrored : Mirrored hub
unfolding att lookup
hub-Mirrored sid cid = ground arith

hub-Owned : Owned hub
unfolding lookup
hub-Owned sid d = ground arith

-- The last chunk of a snapshot, without payload.
abbrev snapshot : List ℕ
snapshot = 1 ∷ 4 ∷ 0 ∷ 0 ∷ 0 ∷ 0 ∷ 0 ∷ 7 ∷ 0 ∷ 0 ∷ 0 ∷ 0 ∷ 0 ∷ 0 ∷ 0 ∷ 0 ∷ 0 ∷ 0 ∷ []

snapshot_header : peek_header snapshot ≡ ok (frame_snapshot, 7)
unfolding peek_header
snapshot_header = refl

abbrev served : Server
served = record hub { attachments = (7, ("c1", false) ∷ []) ∷ [] }

abbrev sent : List Out
sent = Out.frame_to_client "c1" snapshot ∷ []

routed : route_agent_frame hub "d1" snapshot ≡ some (served, sent)
unfolding route_agent_frame peek_header lookup insert deliver frames_to
routed = refl

one_key : IsMap (or_nil (lookup 7 hub.attachments))
unfolding lookup
one_key = (refl, tt)

owns : entitled hub "d1" 7 ≡ true
unfolding lookup
owns = refl

live : lookup "c1" hub.clients ≡ some console
unfolding lookup
live = refl

still_live : lookup "c1" hub.clients ≢ none
still_live e = ground (arith, live)

waiting : att hub.attachments 7 "c1" ≡ some true
unfolding att lookup
waiting = refl

replay_lem_example :
    (reaches "c1" sent ≡ sees true frame_snapshot)
    × (att served.attachments 7 "c1" ≡ some (waits true frame_snapshot (has_more snapshot)))
replay_lem_example =
    replay_lem hub served "d1" snapshot sent frame_snapshot 7 "c1" true snapshot_header routed
      one_key owns still_live waiting

route_agent_frame_lem_example : reaches "c1" sent ≡ (
    entitled hub "d1" 7
    && passes frame_snapshot
        (has_more snapshot)
        (is_some (lookup "c1" hub.clients))
        (att hub.attachments 7 "c1"))
route_agent_frame_lem_example =
    route_agent_frame_lem hub served "d1" snapshot sent frame_snapshot 7 "c1" snapshot_header routed
      one_key

abbrev typed : List ℕ
typed = 1 ∷ 2 ∷ 0 ∷ 0 ∷ 0 ∷ 0 ∷ 0 ∷ 7 ∷ 0 ∷ 0 ∷ 0 ∷ 0 ∷ 0 ∷ 0 ∷ 0 ∷ 0 ∷ 0 ∷ 1 ∷ 97 ∷ []

typed_header : peek_header typed ≡ ok (frame_input, 7)
unfolding peek_header
typed_header = refl

typed_routed : route_client_frame hub console typed ≡ some (Out.frame_to_agent 1 typed ∷ [])
unfolding route_client_frame peek_header lookup
typed_routed = refl

route_client_frame_lem_example :
    (is_input frame_input ≡ true)
    × (att hub.attachments 7 "c1" ≢ none)
    × (conn_of hub (owner_of hub 7) ≡ some 1)
    × (typed ≡ typed)
    × (Path (List Out) [] [])
route_client_frame_lem_example =
    route_client_frame_lem hub "c1" console typed typed frame_input 7 1 [] live hub-Mirrored
      typed_header typed_routed

abbrev no_hub : Server
no_hub = record {
  devices = [];
  clients = [];
  sid_owner = [];
  attachments = [];
  approvals = [];
  agents = [];
}

no_hub-Initial : Initial no_hub
unfolding lookup
no_hub-Initial = (λ sid d. refl, refl, refl, refl)

-- The device connects and opens session 7; the console connects and attaches to it.
abbrev opened : Msg
opened = record (blank MsgType.session_opened) { session = some (unknown_session 7) }

abbrev attaching : Msg
attaching = record (blank MsgType.session_attach) { sid = 7 }

abbrev hub1 : Server
hub1 = (agent_connect no_hub 1 laptop 5).0

abbrev hub2 : Server
hub2 = (handle_agent_msg hub1 1 "d1" opened 6).0

abbrev hub3 : Server
hub3 = (client_connect hub2 "c1" "l").0

abbrev hub4 : Server
hub4 = (handle_client_msg hub3 "c1" attaching none 7).0

nobody : lookup "c1" hub2.clients ≡ none
unfolding lookup agent_connect handle_agent_msg on_session_upsert upsert register_sid insert
nobody = refl

somebody : lookup "c1" hub3.clients ≡ some (record { login_id = "l"; attached = [] })
unfolding lookup agent_connect handle_agent_msg on_session_upsert upsert register_sid insert
    client_connect
somebody = refl

attached_in_trace : att hub4.attachments 7 "c1" ≡ some true
unfolding att put_att attach adjust handle_client_msg lookup agent_connect handle_agent_msg
    on_session_upsert upsert register_sid insert client_connect
attached_in_trace = refl

trace : Reachable hub4
trace =
    later hub3 hub4
      (later hub2 hub3
        (later hub1 hub2
          (later no_hub hub1 (start no_hub no_hub-Initial) (agent_connects no_hub 1 laptop 5))
          (agent_sends hub1 1 "d1" opened 6 (ground (arith, string_key.agrees_iff "d1" ""))))
        (client_connects hub2 "c1" "l" nobody))
      (client_sends hub3 "c1" attaching none 7 (λ e. ground (arith, somebody)))

Reachable-Owned_example : Owned hub4 × Mirrored hub4
Reachable-Owned_example = Reachable-Owned hub4 trace

dropped :
    route_agent_frame (revoke_device hub "d1" "web" false).0 "d1" snapshot
    ≡ some ((revoke_device hub "d1" "web" false).0, [])
unfolding route_agent_frame revoke_device forget_sids forget_sid peek_header lookup delete
    map_entries
dropped = refl

no_key : IsMap (or_nil (lookup 7 (revoke_device hub "d1" "web" false).0.attachments))
unfolding revoke_device forget_sids forget_sid lookup delete map_entries
no_key = tt

revoked_silent_example : reaches "c1" [] ≡ false
revoked_silent_example =
    revoked_silent hub (revoke_device hub "d1" "web" false).0 "d1" "web" "c1" snapshot []
      frame_snapshot 7 hub-Owned snapshot_header dropped no_key

abbrev allow_it : Request
allow_it = record {
  decision = DecisionText.allow;
  actor = "web:c1";
  device_hint = "";
  req_id = "r";
  client_id = "c1";
}

abbrev allowed_hub : Server
allowed_hub = record hub { approvals = ("k1", decided allow_it 9 question) ∷ [] }

abbrev told : List Out
told = announce "k1" allow_it 9 1 "d1" question

allowed : decide_approval hub "k1" allow_it none 9 ≡ (allowed_hub, told, none)
unfolding decide_approval lookup insert
allowed = refl

known-question : known hub "k1" none ≡ some question
unfolding lookup
known-question = refl

decide_approval_lem_example :
    (conn : ℕ) × (conn_to hub (or_hint question.device_id allow_it.device_hint) ≡ some conn)
    × (told
        ≡ Out.set_approval_status "k1" ApprovalStatus.allowed "web:c1" 9
          ∷ Out.to_agent conn (record (blank MsgType.approval_decide) {
            req_id = "r";
            device_id = "d1";
            client_id = "c1";
            sid = question.sid;
            key = "k1";
            decision = DecisionText.allow;
            by = "web:c1";
          })
          ∷ Out.audit "web:c1" "d1" question.sid "approval.decide"
              ("allow" ++ " " ++ question.tool ++ " " ++ question.summary)
          ∷ Out.broadcast (record (blank MsgType.approval_closed) {
            device_id = "d1";
            sid = question.sid;
            key = "k1";
            decision = DecisionText.allow;
            by = "web:c1";
            approval = some (decided allow_it 9 question);
          })
          ∷ [])
    × (lookup "k1" allowed_hub.approvals ≡ some (decided allow_it 9 question))
    × (is_verdict allow_it.decision ≡ true)
    × (is_pending question.status ≡ true)
    × (is_hook question.level ≡ true)
decide_approval_lem_example =
    decide_approval_lem hub allowed_hub "k1" allow_it none 9 told question allowed known-question

-- Of two decisions that both missed the cache, the second also succeeds.
decided_twice : (decide_missed allowed_hub "k1" allow_it question 10).2 ≡ none
unfolding lookup insert
decided_twice = refl

abbrev closes_it : Msg
closes_it = record (blank MsgType.approval_closed) { key = "k1"; decision = DecisionText.fallback }

cached_question : lookup "k1" hub.approvals ≡ some question
unfolding lookup
cached_question = refl
