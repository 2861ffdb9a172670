-- ===== src/Relay/Api/Agreed.antt =====
-- The handlers keep the hub's devices those that are stored and not revoked.
use terminal_x.Common.{
  ℕ, refl, String, Option, none, some, List, Option-cases, Bool-cases, inl, inr, string_key,
  nat_beq,
}
use terminal_x.Relay.Pairing.{normalize_pair_code, trim_space, is_nil}
use terminal_x.Session.Heuristic.Prompt.{codes}
use terminal_x.Relay.Store.Codes.{redeem_pair_code, inc_pair_attempts}
use terminal_x.Relay.Auth.{LoginSession}
use terminal_x.Relay.Persisted.{write}
use terminal_x.Relay.Store.{StoreError, is_live, rename_device}
use terminal_x.Relay.Store.Records.{append_audit}
use terminal_x.Relay.Store.Sql.{affects}
use terminal_x.Relay.Api.{
  Library, Relay, Request, Step, client_ip, session_from_request, with_session,
}
use terminal_x.Relay.Api.Pairs.{
  PairRequest, pair_failed, pair_locked, new_device, redeem_code, byte_length, handle_pair_redeem,
}
use terminal_x.Relay.Api.Console.{
  revoke_as, renamed_as, rename_in, handle_device_rename, handle_device_revoke,
}
use terminal_x.Relay.Api.Handled.{
  Handled, Served, starts, serves, check-Same, login-Same, logout-Same, new_code-Same, decide-Same,
  webhook-Same,
}
use terminal_x.Relay.Api.Agreement.{
  Agrees, Same-Agrees, load_state-Agrees, pair_device-Agrees, rename-Agrees, revoke_as-Agrees,
  register-Agrees,
}
use terminal_x.Relay.Store.Sql.{update_none}

session-Agrees :
    (next : LoginSession → Relay → Step) (q : Request) (now : ℕ) (r : Relay)
    → ((ls : LoginSession) (r1 : Relay) → Agrees r1 → Agrees (next ls r1).2)
    → Agrees r
    → Agrees (with_session next q now r).2
session-Agrees next q now r h a =
    let r1 = (session_from_request q now r).1 in
    let kept = Same-Agrees r r1 (check-Same q now r) a in
    elim (Option-cases (session_from_request q now r).0) [
      | inl e ↦ rw (e, with_session) kept
      | inr (ls, e) ↦ rw (e, with_session) (h ls r1 kept)
    ]

redeem_code-Agrees :
    (lib : Library) (ip code : String) (p : PairRequest) (tok : String) (digits : List ℕ) (now : ℕ)
    (r : Relay)
    → Agrees r
    → Agrees (redeem_code lib ip code p tok digits now r).2
unfolding redeem_code redeem_pair_code pair_failed inc_pair_attempts write append_audit
redeem_code-Agrees lib ip code p tok digits now r a =
    elim (Option-cases (redeem_pair_code lib.date code now r.store).1) [
      | inl e ↦
          rw (e, redeem_code)
            (pair_device-Agrees ip tok (new_device lib p tok digits now) now _ refl a)
      | inr (StoreError.not_found, e) ↦ rw (e, redeem_code) a
      | inr (StoreError.failed, e) ↦ rw (e, redeem_code) a
    ]

redeem-Agrees :
    (lib : Library) (q : Request) (p : Option PairRequest) (tok : String) (digits : List ℕ)
    (now : ℕ) (r : Relay)
    → Agrees r
    → Agrees (handle_pair_redeem lib q p tok digits now r).2
unfolding handle_pair_redeem pair_failed inc_pair_attempts write append_audit
redeem-Agrees lib q none tok digits now r a = a
redeem-Agrees lib q (some p) tok digits now r a =
    let code = lib.text (normalize_pair_code lib.upper (codes p.code)) in
    let ip = lib.text (client_ip q) in
    elim (Bool-cases (pair_locked ip code now r.limiter).0) [
      | inl l ↦ rw l a
      | inr l ↦
          elim (Bool-cases
            (nat_beq (byte_length (normalize_pair_code lib.upper (codes p.code))) 8)) [
              | inr n ↦ rw (l, n) a
              | inl n ↦ rw (l, n) (redeem_code-Agrees lib ip code p tok digits now _ a)
            ]
    ]

rename_handled-Agrees :
    (lib : Library) (q : Request) (j : String) (name : Option String) (now : ℕ) (r : Relay)
    → Agrees r
    → Agrees (handle_device_rename lib q j name now r).2
unfolding handle_device_rename rename_device write append_audit
rename_handled-Agrees lib q j none now r a = a
rename_handled-Agrees lib q j (some name) now r a =
    let trimmed = trim_space (codes name) in
    let new = lib.text trimmed in
    let r1 = record r { store = (rename_device j new r.store).0; hub = rename_in j new r.hub } in
    elim (Bool-cases (is_nil trimmed)) [
      | inl e ↦ rw (e, handle_device_rename) a
      | inr e ↦ elim (Bool-cases (affects (is_live j) r.store.devices)) [
        | inl f ↦
            rw (e, f, handle_device_rename, rename_device)
              (session-Agrees (renamed_as j new now) q now r1 (λ ls r b. b)
                (rename-Agrees j new r a))
        | inr f ↦
            let none_there =
              update_none (is_live j) (λ d. record d { name = new }) r.store.devices f in
            rw (e, f, handle_device_rename, rename_device, none_there) a
      ]
    ]

revoke_handled-Agrees :
    (q : Request) (j : String) (now : ℕ) (r : Relay)
    → Agrees r
    → Agrees (handle_device_revoke q j now r).2
unfolding handle_device_revoke
revoke_handled-Agrees q j now r a =
    session-Agrees (revoke_as j now) q now r (λ ls r1 b. revoke_as-Agrees j now ls r1 b) a

-- In every state that the relay reaches from a start on what a store holds, by its HTTP handlers, each run
-- whole, and by agents that are registered while their device is not revoked, in any order, the hub
-- has a device exactly if it is stored and not revoked.
pub Served-Agrees : (lib : Library) (r : Relay) → Served lib r → Agrees r
Served-Agrees lib r (starts _ e) = load_state-Agrees lib r e
Served-Agrees lib r (serves r0 _ s (Handled.checks_login q now)) =
    Same-Agrees r0 r (check-Same q now r0) (Served-Agrees lib r0 s)
Served-Agrees lib r (serves r0 _ s (Handled.logs_in q password tok id now)) =
    Same-Agrees r0 r (login-Same lib q password tok id now r0) (Served-Agrees lib r0 s)
Served-Agrees lib r (serves r0 _ s (Handled.logs_out q now)) =
    Same-Agrees r0 r (logout-Same q now r0) (Served-Agrees lib r0 s)
Served-Agrees lib r (serves r0 _ s (Handled.makes_code random q now)) =
    Same-Agrees r0 r (new_code-Same lib random q now r0) (Served-Agrees lib r0 s)
Served-Agrees lib r (serves r0 _ s (Handled.redeems_code q p tok digits now)) =
    redeem-Agrees lib q p tok digits now r0 (Served-Agrees lib r0 s)
Served-Agrees lib r (serves r0 _ s (Handled.renames q id name now)) =
    rename_handled-Agrees lib q id name now r0 (Served-Agrees lib r0 s)
Served-Agrees lib r (serves r0 _ s (Handled.revokes q id now)) =
    revoke_handled-Agrees q id now r0 (Served-Agrees lib r0 s)
Served-Agrees lib r (serves r0 _ s (Handled.decides q key body now)) =
    Same-Agrees r0 r (decide-Same q key body now r0) (Served-Agrees lib r0 s)
Served-Agrees lib r (serves r0 _ s (Handled.sets_webhook q body now)) =
    Same-Agrees r0 r (webhook-Same lib q body now r0) (Served-Agrees lib r0 s)
Served-Agrees lib r (serves r0 _ s (Handled.registers_agent d conn now live)) =
    register-Agrees d conn now r0 live (Served-Agrees lib r0 s)
