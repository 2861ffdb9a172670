-- ===== src/Relay/Hub/Routing.antt =====
-- Which consoles get an agent's frame, and where a console's frame goes.
use terminal_x.Common.{
  ℕ, ◌≡◌, ◌≢◌, refl, Bool, true, false, ◌&&◌, ◌||◌, String, Option, none, some, List, [], ◌∷◌,
  if◌then◌else◌, string_key, nat_key, ◌==◌, arith, nat_beq_iff,
}
use terminal_x.Common.Maps.{lookup, IsMap, lookup-insert}
use terminal_x.Proto.Frame.{ok, peek_header}
use terminal_x.Relay.Hub.{Server, ClientConn, Out, owner_of}
use terminal_x.Relay.Hub.Maps.{att, or_nil}
use terminal_x.Relay.Hub.Attached.{Mirrored}
use terminal_x.Relay.Hub.Frames.{
  gate, is_some, deliver, frames_to, has_more, route_agent_frame, route_client_frame, conn_of,
  is_input,
}

-- Whether a client is among the targets.
abbrev pub member : String → List String → Bool
member k [] = false
member k (c ∷ cs) = c == k || member k cs

-- Whether one of the outputs is a frame for the client.
abbrev pub reaches : String → List Out → Bool
reaches k [] = false
reaches k (Out.frame_to_client c _ ∷ out) = c == k || reaches k out
reaches k (_ ∷ out) = reaches k out

abbrev pub passes : ℕ → Bool → Bool → Option Bool → Bool
passes t more live none = false
passes t more live (some p) = live && is_some (gate t more p)

-- The mark that a frame leaves on an attachment.
abbrev pub marked : ℕ → Bool → Bool → Option Bool → Option Bool
marked t more live none = none
marked t more live (some p) =
    if live then elim (gate t more p) [ none ↦ some p | some q ↦ some q ] else some p

deliver_none :
    (clients : List (String × ClientConn)) (t : ℕ) (more : Bool) (atts : List (String × Bool))
    (k : String)
    → lookup k atts ≡ none
    → member k (deliver clients t more atts).0 ≡ false
unfolding deliver lookup
deliver_none clients t more [] k h = refl
deliver_none clients t more ((c, p) ∷ atts) k h =
    ground (arith, string_key.agrees_iff c k, deliver_none clients t more atts k)

deliver_targets :
    (clients : List (String × ClientConn)) (t : ℕ) (more : Bool) (atts : List (String × Bool))
    (k : String)
    → IsMap atts
    → member k (deliver clients t more atts).0
      ≡ passes t more (is_some (lookup k clients)) (lookup k atts)
unfolding deliver lookup
deliver_targets clients t more [] k h = refl
deliver_targets clients t more ((c, p) ∷ atts) k h = ground (
  arith,
  string_key.agrees_iff c k,
  deliver_targets clients t more atts k h.1,
  deliver_none clients t more atts k,
)

deliver_marks :
    (clients : List (String × ClientConn)) (t : ℕ) (more : Bool) (atts : List (String × Bool))
    (k : String)
    → lookup k (deliver clients t more atts).1
      ≡ marked t more (is_some (lookup k clients)) (lookup k atts)
unfolding deliver lookup
deliver_marks clients t more [] k = refl
deliver_marks clients t more ((c, p) ∷ atts) k =
    ground (arith, string_key.agrees_iff c k, deliver_marks clients t more atts k)

reaches-frames_to :
    (k : String) (cids : List String) (frame : List ℕ)
    → reaches k (frames_to cids frame) ≡ member k cids
unfolding frames_to
reaches-frames_to k [] frame = refl
reaches-frames_to k (c ∷ cids) frame = ground (arith, reaches-frames_to k cids frame)

abbrev pub entitled : Server → String → ℕ → Bool
entitled s device sid = elim (lookup sid s.sid_owner) [
  | none ↦ false
  | some owner ↦ owner == device
]

-- An agent's frame reaches a client exactly where the device owns the session, the client is connected
-- and attached to it, and the gate of the frame's type lets it through, if no client occurs twice in the
-- session's attachments.
pub route_agent_frame_lem :
    (s s' : Server) (device : String) (frame : List ℕ) (out : List Out) (t sid : ℕ) (k : String)
    → peek_header frame ≡ ok (t, sid)
    → route_agent_frame s device frame ≡ some (s', out)
    → IsMap (or_nil (lookup sid s.attachments))
    → reaches k out ≡ (
        entitled s device sid
        && passes t (has_more frame) (is_some (lookup k s.clients)) (att s.attachments sid k))
unfolding route_agent_frame att lookup
route_agent_frame_lem s s' device frame out t sid k e r m = ground (
  arith,
  deliver_targets s.clients t (has_more frame) (or_nil (lookup sid s.attachments)) k m,
  reaches-frames_to k (deliver s.clients t (has_more frame) (or_nil (lookup sid s.attachments))).0
      frame,
)

-- Routing a frame changes the marks of the clients it goes to, as `marked` says, and no other
-- attachment.
pub route_agent_frame_marks :
    (s s' : Server) (device : String) (frame : List ℕ) (out : List Out) (t sid j : ℕ) (k : String)
    → peek_header frame ≡ ok (t, sid)
    → route_agent_frame s device frame ≡ some (s', out)
    → att s'.attachments j k ≡ (
        if sid == j && entitled s device sid
        then marked t (has_more frame) (is_some (lookup k s.clients)) (att s.attachments j k)
        else att s.attachments j k)
unfolding route_agent_frame att lookup
route_agent_frame_marks s s' device frame out t sid j k e r = ground (
  arith,
  nat_beq_iff sid j,
  deliver_marks s.clients t (has_more frame) (or_nil (lookup sid s.attachments)) k,
  lookup-insert j sid (deliver s.clients t (has_more frame) (or_nil (lookup sid s.attachments))).1
      s.attachments,
)

-- A console's frame goes to one connection at most, that of the device that owns the session, and only
-- if it is an input frame and the hub has the console attached to the session, for a connected console
-- where the two records of the attachments agree.
pub route_client_frame_lem :
    (s : Server) (cid : String) (c : ClientConn) (frame sent : List ℕ) (t sid conn : ℕ)
    (rest : List Out)
    → lookup cid s.clients ≡ some c
    → Mirrored s
    → peek_header frame ≡ ok (t, sid)
    → route_client_frame s c frame ≡ some (Out.frame_to_agent conn sent ∷ rest)
    → (is_input t ≡ true)
      × (att s.attachments sid cid ≢ none)
      × (conn_of s (owner_of s sid) ≡ some conn)
      × (sent ≡ frame)
      × (rest ≡ [])
unfolding route_client_frame
route_client_frame_lem s cid c frame sent t sid conn rest live m e r = ground (arith, m sid cid)
