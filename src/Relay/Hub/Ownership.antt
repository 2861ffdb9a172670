-- ===== src/Relay/Hub/Ownership.antt =====
-- The handlers of an agent and the agreement of the owners with the session sets.
use terminal_x.Common.{
  ℕ, ◌≡◌, ◌≢◌, refl, Bool, true, false, String, Option, none, some, [], if◌then◌else◌, string_key,
  nat_key, ◌==◌, arith, nat_beq, Bool-cases, nat_beq_iff, Option-cases, inl, inr,
}
use terminal_x.Common.Maps.{lookup, adjust, lookup-insert, lookup-delete, lookup-adjust}
use terminal_x.Proto.Messages.{SessionInfo, DeviceInfo}
use terminal_x.Proto.Envelope.{Msg}
use terminal_x.Relay.Hub.{Server, DeviceState, register_sid, forget_sid, forget_sids}
use terminal_x.Relay.Hub.Agents.{
  hello_sessions, forget_unseen, on_agent_hello, agent_connect, agent_disconnect, revoke_device,
  beat, state_or_new, greeted, online, offline,
}
use terminal_x.Relay.Hub.Upserts.{
  upsert, on_session_upsert, on_session_state, on_session_exited, on_session_closed, put_session,
  on_session, without_session, stated, exited, unknown_session,
}
use terminal_x.Relay.Hub.Routing.{entitled}
use terminal_x.Relay.Hub.Owners.{
  has, Owned, register_sid_lem, register_sid-devices, entitled-forget_sid, entitled-forget_sids,
  forget_sids-devices, entitled-forget_unseen, forget_unseen-devices, hello_sessions-devices,
  entitled-hello_sessions,
}

-- A connecting agent changes no session: a device that is new has none.
pub agent_connect-Owned :
    (s : Server) (conn : ℕ) (row : DeviceInfo) (now : ℕ)
    → Owned s
    → Owned (agent_connect s conn row now).0
unfolding agent_connect lookup
agent_connect-Owned s conn row now h sid d = ground (
  arith,
  h sid d,
  string_key.agrees_iff row.id d,
  lookup-insert d row.id (online conn now (state_or_new (lookup row.id s.devices) row)) s.devices,
)

-- A disconnect keeps every session, for the console to bring back.
pub agent_disconnect-Owned :
    (s : Server) (conn : ℕ) (device : String) → Owned s → Owned (agent_disconnect s conn device).0
unfolding agent_disconnect
agent_disconnect-Owned s conn device h sid d = elim (Option-cases (lookup device s.devices)) [
  | inl e ↦ ground (arith, h sid d)
  | inr (ds, e) ↦ ground (
    arith,
    h sid d,
    string_key.agrees_iff device d,
    lookup-insert d device (offline ds) s.devices,
  )
]

same : (s : Server) (j : ℕ) (d e : String) → entitled s d j ≡ true → entitled s e j ≡ true → d ≡ e
same s j d e h k = elim (Option-cases (lookup j s.sid_owner)) [
  | inl n ↦ ground arith
  | inr (o, n) ↦ ground (arith, string_key.agrees_iff o d, string_key.agrees_iff o e)
]

-- A hello's session set replaces the old one: what was not seen again is forgotten, and a session id
-- of another device is left where it is.
pub on_agent_hello-Owned :
    (s : Server) (conn : ℕ) (device : String) (m : Msg) (now : ℕ)
    → Owned s
    → Owned (on_agent_hello s conn device m now).0
unfolding on_agent_hello lookup
on_agent_hello-Owned s conn device m now h sid d = elim (Option-cases (lookup device s.devices)) [
  | inl e ↦ ground (arith, h sid d)
  | inr (ds, e) ↦
      let r = hello_sessions (beat conn now s) device [] m.sessions in
      ground (
        arith,
        h sid d,
        h sid device,
        same s sid d device,
        string_key.agrees_iff device d,
        lookup-insert d device (greeted m now r.1 ds) (forget_unseen r.0 r.1 ds.sessions).devices,
        forget_unseen-devices r.0 r.1 ds.sessions,
        hello_sessions-devices (beat conn now s) device [] m.sessions,
        entitled-forget_unseen r.0 r.1 ds.sessions sid d,
        entitled-hello_sessions (beat conn now s) device [] m.sessions sid d (λ j. ground arith),
      )
]

upsert-Owned :
    (s : Server) (conn : ℕ) (device : String) (m : Msg) (si : SessionInfo)
    → Owned s
    → Owned (upsert s conn device m si).0
unfolding upsert
upsert-Owned s conn device m si h sid d = elim (Option-cases (lookup device s.devices)) [
  | inl e ↦ ground (arith, h sid d)
  | inr (ds, e) ↦ elim (Option-cases (register_sid s si.sid device)) [
    | inl r ↦ ground (arith, h sid d)
    | inr (s', r) ↦ ground (
      arith,
      h sid d,
      h sid device,
      nat_beq_iff si.sid sid,
      string_key.agrees_iff device d,
      register_sid_lem s s' si.sid sid device d r,
      register_sid-devices s s' si.sid device r,
      lookup-insert d device (put_session si ds) s'.devices,
      lookup-insert sid si.sid si ds.sessions,
    )
  ]
]

-- A session that an agent reports is its own, or is refused.
pub on_session_upsert-Owned :
    (s : Server) (conn : ℕ) (device : String) (m : Msg)
    → Owned s
    → Owned (on_session_upsert s conn device m).0
unfolding on_session_upsert
on_session_upsert-Owned s conn device m h = elim (Option-cases m.session) [
  | inr (si, e) ↦
      rw (e, on_session_upsert) (upsert-Owned s conn device m (record si { device_id = device }) h)
  | inl e ↦ elim (Bool-cases (nat_beq m.sid 0)) [
    | inl z ↦ rw (e, z, on_session_upsert) h
    | inr z ↦
        rw (e, z, on_session_upsert)
          (upsert-Owned s conn device m (record (unknown_session m.sid) { device_id = device }) h)
  ]
]

has_adjust :
    (o : Option DeviceState) (sid j : ℕ) (f : SessionInfo → SessionInfo)
    → has (elim o [ none ↦ none | some d ↦ some (on_session sid f d) ]) j ≡ has o j
has_adjust none sid j f = refl
has_adjust (some d) sid j f = ground (arith, lookup-adjust j sid f d.sessions)

-- A state message changes a known session only, never the set.
pub on_session_state-Owned :
    (s : Server) (device : String) (m : Msg) → Owned s → Owned (on_session_state s device m).0
unfolding on_session_state
on_session_state-Owned s device m h sid d = ground (
  arith,
  h sid d,
  lookup-adjust d device (on_session m.sid (stated device m)) s.devices,
  has_adjust (lookup d s.devices) m.sid sid (stated device m),
)

-- An exited session stays in the set.
pub on_session_exited-Owned :
    (s : Server) (device : String) (m : Msg) → Owned s → Owned (on_session_exited s device m).0
unfolding on_session_exited
on_session_exited-Owned s device m h sid d = ground (
  arith,
  h sid d,
  lookup-adjust d device (on_session m.sid (exited m)) s.devices,
  has_adjust (lookup d s.devices) m.sid sid (exited m),
)

has_without :
    (o : Option DeviceState) (sid j : ℕ)
    → has (elim o [ none ↦ none | some d ↦ some (without_session sid d) ]) j
      ≡ (if sid == j then false else has o j)
has_without none sid j = ground arith
has_without (some d) sid j = ground (arith, lookup-delete j sid d.sessions)

forget_sid-devices : (s : Server) (sid : ℕ) → (forget_sid s sid).devices ≡ s.devices
unfolding forget_sid
forget_sid-devices s sid = refl

-- A closed session leaves the set and is forgotten, and another device's session is left alone.
pub on_session_closed-Owned :
    (s : Server) (device : String) (m : Msg)
    → device ≢ ""
    → Owned s
    → Owned (on_session_closed s device m).0
unfolding on_session_closed
on_session_closed-Owned s device m n h sid d =
    let s1 = record s { devices = adjust device (without_session m.sid) s.devices } in
    elim (Option-cases (lookup m.sid s.sid_owner)) [
      | inl o ↦ ground (
        arith,
        h sid d,
        h m.sid d,
        nat_beq_iff m.sid sid,
        string_key.agrees_iff device d,
        string_key.agrees_iff "" device,
        lookup-adjust d device (without_session m.sid) s.devices,
        has_without (lookup d s.devices) m.sid sid,
      )
      | inr (o, e) ↦ ground (
        arith,
        h sid d,
        h m.sid d,
        nat_beq_iff m.sid sid,
        string_key.agrees_iff device d,
        string_key.agrees_iff o d,
        string_key.agrees_iff o device,
        lookup-adjust d device (without_session m.sid) s.devices,
        has_without (lookup d s.devices) m.sid sid,
        entitled-forget_sid s1 m.sid sid d,
        forget_sid-devices s1 m.sid,
      )
    ]

-- A revoked device takes its sessions with it.
pub revoke_device-Owned :
    (s : Server) (device actor : String) (refused : Bool)
    → Owned s
    → Owned (revoke_device s device actor refused).0
unfolding revoke_device
revoke_device-Owned s device actor refused h sid d = elim (Option-cases (lookup device s.devices)) [
  | inl e ↦ ground (arith, h sid d)
  | inr (ds, e) ↦ ground (
    arith,
    h sid d,
    h sid device,
    same s sid d device,
    string_key.agrees_iff device d,
    entitled-forget_sids s ds.sessions sid d,
    forget_sids-devices s ds.sessions,
    lookup-delete d device (forget_sids s ds.sessions).devices,
  )
]
