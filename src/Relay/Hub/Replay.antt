-- ===== src/Relay/Hub/Replay.antt =====
-- What an attached console sees of a session's frames, from its attach on.
use terminal_x.Common.{
  ℕ, ◌≡◌, ◌≢◌, Bool, true, false, not, ◌&&◌, String, none, some, List, if◌then◌else◌, string_key,
  nat_key, arith, nat_beq, nat_beq_iff, Option-cases, inl, inr,
}
use terminal_x.Common.Maps.{lookup, IsMap, lookup-delete}
use terminal_x.Proto.Frame.{ok, peek_header, frame_snapshot, frame_output}
use terminal_x.Relay.Hub.{Server, Out, forget_sids}
use terminal_x.Relay.Hub.Maps.{att, or_nil, att-put_att}
use terminal_x.Relay.Hub.Frames.{has_more, route_agent_frame}
use terminal_x.Relay.Hub.Clients.{attach}
use terminal_x.Relay.Hub.Agents.{revoke_device}
use terminal_x.Relay.Hub.Routing.{reaches, entitled, route_agent_frame_lem, route_agent_frame_marks}
use terminal_x.Relay.Hub.Owners.{Owned}
use terminal_x.Relay.Hub.Ownership.{revoke_device-Owned}

-- Whether a client that waits for a snapshot, or does not, sees a frame of type `t`.
abbrev pub sees : Bool → ℕ → Bool
sees pending t =
    if nat_beq t frame_snapshot
    then pending
    else if nat_beq t frame_output
    then not pending
    else true

-- Whether it waits afterwards: a snapshot's last chunk ends the wait.
abbrev pub waits : Bool → ℕ → Bool → Bool
waits pending t more = if nat_beq t frame_snapshot then pending && more else pending

-- A connected client that is attached to a session of the device sees a frame of the session as `sees`
-- says, and then waits as `waits` says: live output only once the last chunk of the snapshot has come,
-- and the snapshot only until then. No client occurs twice in the session's attachments.
pub replay_lem :
    (s s' : Server) (device : String) (frame : List ℕ) (out : List Out) (t sid : ℕ) (k : String)
    (pending : Bool)
    → peek_header frame ≡ ok (t, sid)
    → route_agent_frame s device frame ≡ some (s', out)
    → IsMap (or_nil (lookup sid s.attachments))
    → entitled s device sid ≡ true
    → lookup k s.clients ≢ none
    → att s.attachments sid k ≡ some pending
    → (reaches k out ≡ sees pending t)
      × (att s'.attachments sid k ≡ some (waits pending t (has_more frame)))
replay_lem s s' device frame out t sid k pending e r m own live a = ground (
  arith,
  nat_beq_iff sid sid,
  route_agent_frame_lem s s' device frame out t sid k e r m,
  route_agent_frame_marks s s' device frame out t sid sid k e r,
)

-- An attach that is granted for a device, whose id is not empty, makes the client wait, and the device
-- owns the session.
pub attach_lem :
    (s s' : Server) (cid : String) (sid : ℕ) (device : String)
    → device ≢ ""
    → attach s cid sid device ≡ some s'
    → (att s'.attachments sid cid ≡ some true) × (entitled s device sid ≡ true)
unfolding attach
attach_lem s s' cid sid device n e = ground (
  arith,
  string_key.agrees_iff "" device,
  string_key.agrees_iff cid cid,
  nat_beq_iff sid sid,
  att-put_att sid sid cid cid true s.attachments,
)

gone :
    (s : Server) (device actor : String)
    → lookup device (revoke_device s device actor false).0.devices ≡ none
unfolding revoke_device
gone s device actor = elim (Option-cases (lookup device s.devices)) [
  | inl e ↦ ground arith
  | inr (d, e) ↦ ground (
    arith,
    string_key.agrees_iff device device,
    lookup-delete device device (forget_sids s d.sessions).devices,
  )
]

-- After a device was revoked, no frame of its connection reaches a console, if the owners and the
-- session sets agreed before and no client occurs twice in the session's attachments.
pub revoked_silent :
    (s s' : Server) (device actor k : String) (frame : List ℕ) (out : List Out) (t sid : ℕ)
    → Owned s
    → peek_header frame ≡ ok (t, sid)
    → route_agent_frame (revoke_device s device actor false).0 device frame ≡ some (s', out)
    → IsMap (or_nil (lookup sid (revoke_device s device actor false).0.attachments))
    → reaches k out ≡ false
revoked_silent s s' device actor k frame out t sid h e r m =
    let s1 = (revoke_device s device actor false).0 in
    ground (
      arith,
      route_agent_frame_lem s1 s' device frame out t sid k e r m,
      revoke_device-Owned s device actor false h sid device,
      gone s device actor,
    )
