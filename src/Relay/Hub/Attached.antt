-- ===== src/Relay/Hub/Attached.antt =====
-- The two records of an attachment, the client's `attached` and the hub's `attachments`.
use terminal_x.Common.{
  ℕ, ◌≡◌, refl, Bool, true, ◌&&◌, String, Option, none, some, List, [], ◌∷◌, if◌then◌else◌,
  string_key, nat_key, ◌==◌, arith, nat_beq_iff, Option-cases, inl, inr, ◌≢◌,
}
use terminal_x.Common.Maps.{lookup, lookup-insert, lookup-delete, lookup-adjust, lookup-map_entries}
use terminal_x.Relay.Hub.{Server, ClientConn, forget_sid, forget_sids, detached}
use terminal_x.Proto.Messages.{SessionInfo}
use terminal_x.Relay.Hub.Maps.{att, drop_att, att-put_att, att-drop_att, att-delete}
use terminal_x.Relay.Hub.Clients.{
  client_connect, client_disconnect, attach, detach, drop_all, put_sid, cut_sid,
}
use terminal_x.Relay.Hub.Frames.{is_some}

abbrev pub flag : Option Bool → Option Bool
flag none = none
flag (some _) = some true

-- What the hub's map says a client's own map should hold.
abbrev pub own : Option ClientConn → ℕ → Option Bool
own none sid = none
own (some c) sid = lookup sid c.attached

-- A connected client's map holds exactly its attachments, and a client that is not connected has none.
abbrev pub Mirrored : Server → Type 0
Mirrored s =
    (sid : ℕ) (cid : String) → own (lookup cid s.clients) sid ≡ flag (att s.attachments sid cid)

lookup-empty : (sid : ℕ) → lookup {V = Bool} sid [] ≡ none
unfolding lookup
lookup-empty sid = refl

-- A client's connection keeps the two records of its attachments in agreement, when its id is new.
pub client_connect-Mirrored :
    (s : Server) (cid login : String)
    → lookup cid s.clients ≡ none
    → Mirrored s
    → Mirrored (client_connect s cid login).0
unfolding client_connect
client_connect-Mirrored s cid login new h sid k = ground (
  arith,
  string_key.agrees_iff cid k,
  h sid k,
  h sid cid,
  lookup-insert k cid (record { login_id = login; attached = [] }) s.clients,
  lookup-empty sid,
)

att-drop_all :
    (cid k : String) (j : ℕ) (sids : List (ℕ × Bool)) (m : List (ℕ × List (String × Bool)))
    → att (drop_all cid sids m) j k
      ≡ (if cid == k && is_some (lookup j sids) then none else att m j k)
unfolding drop_all lookup
att-drop_all cid k j [] m = ground arith
att-drop_all cid k j ((sid, b) ∷ sids) m =
    ground (arith, att-drop_all cid k j sids (drop_att sid cid m), att-drop_att sid j cid k m)

-- A client that disconnects leaves no attachment behind, and the others keep theirs.
pub client_disconnect-Mirrored :
    (s : Server) (cid : String) → Mirrored s → Mirrored (client_disconnect s cid)
unfolding client_disconnect
client_disconnect-Mirrored s cid h sid k = elim (Option-cases (lookup cid s.clients)) [
  | inl e ↦ rw (e, client_disconnect) (h sid k)
  | inr (c, e) ↦
      rw (e, client_disconnect)
        (ground (
          arith,
          string_key.agrees_iff cid k,
          e,
          h sid k,
          lookup-delete k cid s.clients,
          att-drop_all cid k sid c.attached s.attachments,
        ))
]

own-put_sid :
    (o : Option ClientConn) (sid j : ℕ)
    → own (elim o [ none ↦ none | some c ↦ some (put_sid sid c) ]) j
      ≡ (if sid == j && is_some o then some true else own o j)
own-put_sid none sid j = ground arith
own-put_sid (some c) sid j = ground (arith, lookup-insert j sid true c.attached)

own-cut_sid :
    (o : Option ClientConn) (sid j : ℕ)
    → own (elim o [ none ↦ none | some c ↦ some (cut_sid sid c) ]) j
      ≡ (if sid == j then none else own o j)
own-cut_sid none sid j = ground arith
own-cut_sid (some c) sid j = ground (arith, lookup-delete j sid c.attached)

-- An attach of a connected client enters the two records alike.
pub attach-Mirrored :
    (s s' : Server) (cid : String) (sid : ℕ) (device : String)
    → attach s cid sid device ≡ some s'
    → lookup cid s.clients ≢ none
    → Mirrored s
    → Mirrored s'
unfolding attach
attach-Mirrored s s' cid sid device e live h j k = ground (
  arith,
  string_key.agrees_iff cid k,
  nat_beq_iff sid j,
  h j k,
  h sid cid,
  lookup-adjust k cid (put_sid sid) s.clients,
  own-put_sid (lookup k s.clients) sid j,
  att-put_att sid j cid k true s.attachments,
)

-- A detach deletes from the two records alike.
pub detach-Mirrored :
    (s : Server) (cid : String) (sid : ℕ) → Mirrored s → Mirrored (detach s cid sid)
unfolding detach
detach-Mirrored s cid sid h j k = ground (
  arith,
  string_key.agrees_iff cid k,
  nat_beq_iff sid j,
  h j k,
  lookup-adjust k cid (cut_sid sid) s.clients,
  own-cut_sid (lookup k s.clients) sid j,
  att-drop_att sid j cid k s.attachments,
)

-- A forgotten session is detached from every client on both sides.
pub forget_sid-Mirrored : (s : Server) (sid : ℕ) → Mirrored s → Mirrored (forget_sid s sid)
unfolding forget_sid
forget_sid-Mirrored s sid h j k = ground (
  arith,
  h j k,
  nat_beq_iff sid j,
  lookup-map_entries k (λ _ c. detached sid c) s.clients,
  own-cut_sid (lookup k s.clients) sid j,
  att-delete sid j k s.attachments,
)

pub forget_sids-Mirrored :
    (s : Server) (m : List (ℕ × SessionInfo)) → Mirrored s → Mirrored (forget_sids s m)
unfolding forget_sids
forget_sids-Mirrored s [] h = h
forget_sids-Mirrored s ((sid, _) ∷ m) h =
    forget_sids-Mirrored (forget_sid s sid) m (forget_sid-Mirrored s sid h)
