-- ===== src/Relay/Hub/Owners.antt =====
-- The owners of the session ids and the session sets of the devices.
use terminal_x.Common.{
  ℕ, ◌≡◌, ◌≢◌, refl, Bool, true, false, not, ◌&&◌, ◌||◌, String, Option, none, some, List, [], ◌∷◌,
  if◌then◌else◌, string_key, nat_key, ◌==◌, arith, nat_beq_iff, Option-cases, inl, inr, ◌∙◌,
}
use terminal_x.Common.Maps.{lookup, insert, lookup-insert, lookup-delete}
use terminal_x.Proto.Messages.{SessionInfo}
use terminal_x.Relay.Hub.{Server, DeviceState, register_sid, forget_sid, forget_sids}
use terminal_x.Relay.Hub.Agents.{hello_sessions, forget_unseen}
use terminal_x.Relay.Hub.Frames.{is_some}
use terminal_x.Relay.Hub.Routing.{entitled}

abbrev pub has : Option DeviceState → ℕ → Bool
has none sid = false
has (some d) sid = is_some (lookup sid d.sessions)

-- A device owns exactly the session ids of its session set.
abbrev pub Owned : Server → Type 0
Owned s = (sid : ℕ) (d : String) → entitled s d sid ≡ has (lookup d s.devices) sid

-- A session id is bound to a device if no other device has it, and then it alone changes its owner.
pub register_sid_lem :
    (s s' : Server) (sid j : ℕ) (device d : String)
    → register_sid s sid device ≡ some s'
    → (entitled s' d j ≡ (if sid == j then device == d else entitled s d j))
      × (device ≢ d → entitled s d sid ≡ false)
unfolding register_sid
register_sid_lem s s' sid j device d e = elim (Option-cases (lookup sid s.sid_owner)) [
  | inl n ↦ ground (arith, nat_beq_iff sid j, lookup-insert j sid device s.sid_owner)
  | inr (o, n) ↦ ground (
    arith,
    nat_beq_iff sid j,
    lookup-insert j sid device s.sid_owner,
    string_key.agrees_iff device d,
    string_key.agrees_iff o device,
    string_key.agrees_iff o d,
  )
]

pub register_sid-devices :
    (s s' : Server) (sid : ℕ) (device : String)
    → register_sid s sid device ≡ some s'
    → s'.devices ≡ s.devices
unfolding register_sid
register_sid-devices s s' sid device e = ground arith

pub entitled-forget_sid :
    (s : Server) (sid j : ℕ) (d : String)
    → entitled (forget_sid s sid) d j ≡ (if sid == j then false else entitled s d j)
unfolding forget_sid
entitled-forget_sid s sid j d = ground (arith, lookup-delete j sid s.sid_owner)

pub entitled-forget_sids :
    (s : Server) (m : List (ℕ × SessionInfo)) (j : ℕ) (d : String)
    → entitled (forget_sids s m) d j ≡ (if is_some (lookup j m) then false else entitled s d j)
unfolding forget_sids lookup
entitled-forget_sids s [] j d = refl
entitled-forget_sids s ((sid, _) ∷ m) j d =
    ground (arith, entitled-forget_sids (forget_sid s sid) m j d, entitled-forget_sid s sid j d)

pub forget_sids-devices :
    (s : Server) (m : List (ℕ × SessionInfo)) → (forget_sids s m).devices ≡ s.devices
unfolding forget_sids forget_sid
forget_sids-devices s [] = refl
forget_sids-devices s ((sid, _) ∷ m) = forget_sids-devices (forget_sid s sid) m

pub entitled-forget_unseen :
    (s : Server) (fresh old : List (ℕ × SessionInfo)) (j : ℕ) (d : String)
    → entitled (forget_unseen s fresh old) d j
      ≡ (if is_some (lookup j old) && not (is_some (lookup j fresh)) then false else entitled s d j)
unfolding forget_unseen lookup
entitled-forget_unseen s fresh [] j d = ground arith
entitled-forget_unseen s fresh ((sid, _) ∷ old) j d = ground (
  arith,
  nat_beq_iff sid j,
  entitled-forget_unseen (forget_sid s sid) fresh old j d,
  entitled-forget_unseen s fresh old j d,
  entitled-forget_sid s sid j d,
)

pub forget_unseen-devices :
    (s : Server) (fresh old : List (ℕ × SessionInfo))
    → (forget_unseen s fresh old).devices ≡ s.devices
unfolding forget_unseen forget_sid
forget_unseen-devices s fresh [] = refl
forget_unseen-devices s fresh ((sid, _) ∷ old) =
    ground
      (arith, forget_unseen-devices (forget_sid s sid) fresh old, forget_unseen-devices s fresh old)

pub hello_sessions-devices :
    (s : Server) (device : String) (fresh : List (ℕ × SessionInfo)) (sis : List SessionInfo)
    → (hello_sessions s device fresh sis).0.devices ≡ s.devices
unfolding hello_sessions
hello_sessions-devices s device fresh [] = refl
hello_sessions-devices s device fresh (si ∷ sis) =
    elim (Option-cases (register_sid s si.sid device)) [
      | inl e ↦ rw (e, hello_sessions) (hello_sessions-devices s device fresh sis)
      | inr (s', e) ↦
          rw (e, hello_sessions)
            (hello_sessions-devices s' device
                (insert si.sid (record si { device_id = device }) fresh) sis
              ∙ register_sid-devices s s' si.sid device e)
    ]

-- What a hello has registered so far: the session set is owned.
abbrev Fresh : Server → String → List (ℕ × SessionInfo) → Type 0
Fresh s device fresh = (j : ℕ) → is_some (lookup j fresh) ≡ true → entitled s device j ≡ true

fresh-hello_sessions :
    (s : Server) (device : String) (fresh : List (ℕ × SessionInfo)) (sis : List SessionInfo) (j : ℕ)
    → is_some (lookup j fresh) ≡ true
    → is_some (lookup j (hello_sessions s device fresh sis).1) ≡ true
unfolding hello_sessions
fresh-hello_sessions s device fresh [] j h = h
fresh-hello_sessions s device fresh (si ∷ sis) j h =
    elim (Option-cases (register_sid s si.sid device)) [
      | inl e ↦ rw (e, hello_sessions) (fresh-hello_sessions s device fresh sis j h)
      | inr (s', e) ↦
          rw (e, hello_sessions)
            (fresh-hello_sessions s' device (insert si.sid (record si { device_id = device }) fresh)
              sis j
              (ground (arith, lookup-insert j si.sid (record si { device_id = device }) fresh)))
    ]

Fresh-insert :
    (s s' : Server) (si : SessionInfo) (device : String) (fresh : List (ℕ × SessionInfo))
    → register_sid s si.sid device ≡ some s'
    → Fresh s device fresh
    → Fresh s' device (insert si.sid (record si { device_id = device }) fresh)
Fresh-insert s s' si device fresh e h j = ground (
  arith,
  h j,
  register_sid_lem s s' si.sid j device device e,
  lookup-insert j si.sid (record si { device_id = device }) fresh,
  string_key.agrees_iff device device,
)

pub entitled-hello_sessions :
    (s : Server) (device : String) (fresh : List (ℕ × SessionInfo)) (sis : List SessionInfo) (j : ℕ)
    (d : String)
    → Fresh s device fresh
    → entitled (hello_sessions s device fresh sis).0 d j ≡ (
        entitled s d j || (device == d && is_some (lookup j (hello_sessions s device fresh sis).1)))
unfolding hello_sessions
entitled-hello_sessions s device fresh [] j d h =
    ground (arith, h j, string_key.agrees_iff device d)
entitled-hello_sessions s device fresh (si ∷ sis) j d h =
    elim (Option-cases (register_sid s si.sid device)) [
      | inl e ↦ rw (e, hello_sessions) (entitled-hello_sessions s device fresh sis j d h)
      | inr (s', e) ↦
          rw (e, hello_sessions)
            (entitled-hello_sessions s' device
                (insert si.sid (record si { device_id = device }) fresh) sis j d
                (Fresh-insert s s' si device fresh e h)
              ∙ ground (
                arith,
                nat_beq_iff si.sid j,
                string_key.agrees_iff device d,
                register_sid_lem s s' si.sid j device d e,
                fresh-hello_sessions s' device
                    (insert si.sid (record si { device_id = device }) fresh) sis si.sid
                    (ground (
                      arith,
                      nat_beq_iff si.sid si.sid,
                      lookup-insert si.sid si.sid (record si { device_id = device }) fresh,
                    )),
              ))
    ]
