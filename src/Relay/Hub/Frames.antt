-- ===== src/Relay/Hub/Frames.antt =====
-- `routeAgentFrame` (internal/relay/ws_agent.go) and `routeClientFrame` (ws_client.go): data frames
-- between an agent and the consoles that are attached to the session.
use terminal_x.Common.{
  ℕ, ◌/◌, ◌%◌, Bool, true, false, not, ◌&&◌, ◌||◌, String, Option, none, some, List, [], ◌∷◌,
  if◌then◌else◌, string_key, nat_key, ◌==◌, nat_beq, get_or,
}
use terminal_x.Common.Maps.{lookup, insert}
use terminal_x.Proto.Frame.{
  ok, err, peek_header, flag_more, frame_output, frame_snapshot, frame_input, frame_resize,
  frame_ack,
}
use terminal_x.Relay.Hub.{Server, ClientConn, Out, owner_of, is_attached}

-- Whether a frame of type `t` goes to an attached client, and the client's pending mark afterwards.
abbrev pub gate : ℕ → Bool → Bool → Option Bool
gate t more pending =
    if nat_beq t frame_snapshot
    then (if pending then some more else none)
    else if nat_beq t frame_output
    then (if pending then none else some pending)
    else some pending

abbrev pub is_some : {A : Type 0} → Option A → Bool
is_some none = false
is_some (some _) = true

-- The loop over `atts`: the targets, and the marks it leaves.
unfoldable pub deliver :
    List (String × ClientConn)
    → ℕ
    → Bool
    → List (String × Bool)
    → List String × List (String × Bool)
deliver clients t more [] = ([], [])
deliver clients t more ((cid, pending) ∷ atts) =
    let (out, rest) = deliver clients t more atts in
    if is_some (lookup cid clients)
    then elim (gate t more pending) [
      | none ↦ (out, (cid, pending) ∷ rest)
      | some p ↦ (cid ∷ out, (cid, p) ∷ rest)
    ]
    else (out, (cid, pending) ∷ rest)

unfoldable pub frames_to : List String → List ℕ → List Out
frames_to [] frame = []
frames_to (cid ∷ cids) frame = Out.frame_to_client cid frame ∷ frames_to cids frame

abbrev pub has_more : List ℕ → Bool
has_more frame = not (nat_beq (get_or frame 2 0 / flag_more % 2) 0)

-- `none` is the answer false, after which the connection is closed.
unfoldable pub route_agent_frame : Server → String → List ℕ → Option (Server × List Out)
route_agent_frame s device frame = elim (peek_header frame) [
  | err e ↦ none
  | ok (t, sid) ↦ elim (lookup sid s.sid_owner) [
    | none ↦ some (s, [])
    | some owner ↦
        if owner == device
        then elim (lookup sid s.attachments) [
          | none ↦ some (s, [])
          | some atts ↦
              let (out, marks) = deliver s.clients t (has_more frame) atts in
              some (record s { attachments = insert sid marks s.attachments }, frames_to out frame)
        ]
        else some (s, [])
  ]
]

abbrev pub conn_of : Server → String → Option ℕ
conn_of s device = elim (lookup device s.devices) [ none ↦ none | some d ↦ d.conn ]

abbrev pub is_input : ℕ → Bool
is_input t = nat_beq t frame_input || nat_beq t frame_resize || nat_beq t frame_ack

unfoldable pub route_client_frame : Server → ClientConn → List ℕ → Option (List Out)
route_client_frame s c frame = elim (peek_header frame) [
  | err e ↦ none
  | ok (t, sid) ↦
      if is_input t && is_attached c sid
      then elim (conn_of s (owner_of s sid)) [
        | none ↦ some []
        | some conn ↦ some (Out.frame_to_agent conn frame ∷ [])
      ]
      else some []
]
