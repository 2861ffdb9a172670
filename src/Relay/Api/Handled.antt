-- ===== src/Relay/Api/Handled.antt =====
-- The relay as a transition system of its HTTP handlers, and what most of them leave alone.
use terminal_x.Common.{
  ℕ, ◌-◌, ◌≡◌, refl, true, String, Option, none, some, List, [], ◌∷◌, arith, Option-cases, inl, inr,
}
use terminal_x.Proto.Envelope.{DecisionText}
use terminal_x.Proto.Messages.{Approval}
use terminal_x.Relay.Hub.{Server}
use terminal_x.Relay.Hub.Approvals.{decide_approval}
use terminal_x.Relay.Hub.Approvals as hub_approvals
use terminal_x.Relay.Auth.{LoginSession}
use terminal_x.Relay.Store.{Store, Device, is_live}
use terminal_x.Relay.Store.Sql.{affects}
use terminal_x.Relay.Store.Codes.{create_pair_code, purge_pair_codes}
use terminal_x.Relay.Store.Records.{append_audit, set_setting, get_approval, set_approval_status}
use terminal_x.Relay.Persisted.{write, write_all, load_state}
use terminal_x.Relay.Api.{Library, Relay, Request, Step, session_from_request, with_session, web}
use terminal_x.Relay.Api.Logins.{handle_login, handle_logout}
use terminal_x.Relay.Api.Pairs.{
  PairRequest, handle_pair_new, handle_pair_redeem, try_codes, one_day,
}
use terminal_x.Relay.Api.Paired.{row_of}
use terminal_x.Relay.Pairing.{new_pair_code}
use terminal_x.Relay.Api.Console.{
  handle_device_rename, handle_device_revoke, decide_as, handle_approval_decide, handle_webhook_put,
}
use terminal_x.Relay.Api.Tokens.{register_agent}

-- An agent that was let in by its token is registered later; a step is the case that its device is then not
-- revoked.
pub data Handled (lib : Library) (r : Relay) : Relay → Type 0 where
  checks_login : (q : Request) (now : ℕ) → Handled lib r (session_from_request q now r).1
  logs_in :
      (q : Request) (password : Option String) (tok id : String) (now : ℕ)
      → Handled lib r (handle_login lib q password tok id now r).2
  logs_out : (q : Request) (now : ℕ) → Handled lib r (handle_logout q now r).2
  makes_code :
      (random : List (List ℕ)) (q : Request) (now : ℕ)
      → Handled lib r (handle_pair_new lib random q now r).2
  redeems_code :
      (q : Request) (p : Option PairRequest) (tok : String) (digits : List ℕ) (now : ℕ)
      → Handled lib r (handle_pair_redeem lib q p tok digits now r).2
  renames :
      (q : Request) (id : String) (name : Option String) (now : ℕ)
      → Handled lib r (handle_device_rename lib q id name now r).2
  revokes :
      (q : Request) (id : String) (now : ℕ) → Handled lib r (handle_device_revoke q id now r).2
  decides :
      (q : Request) (key : String) (body : Option (DecisionText × String)) (now : ℕ)
      → Handled lib r (handle_approval_decide q key body now r).2
  sets_webhook :
      (q : Request) (body : Option String) (now : ℕ)
      → Handled lib r (handle_webhook_put lib q body now r).2
  registers_agent :
      (d : Device) (conn now : ℕ)
      → affects (is_live d.id) r.store.devices ≡ true
      → Handled lib r (register_agent d conn now r).2

-- The relay after a start on a store that it had left, and then any handlers.
pub data Served (lib : Library) : Relay → Type 0 where
  starts : (r : Relay) → r.hub ≡ load_state lib.date r.store → Served lib r
  serves : (r r' : Relay) → Served lib r → Handled lib r r' → Served lib r'

-- The devices are the same.
abbrev pub Same : Relay → Relay → Type 0
Same r r' = (r'.store.devices ≡ r.store.devices) × (r'.hub.devices ≡ r.hub.devices)

pub check-Same : (q : Request) (now : ℕ) (r : Relay) → Same r (session_from_request q now r).1
unfolding session_from_request
check-Same q now r = ground arith

pub login-Same :
    (lib : Library) (q : Request) (password : Option String) (tok id : String) (now : ℕ) (r : Relay)
    → Same r (handle_login lib q password tok id now r).2
unfolding handle_login write append_audit
login-Same lib q none tok id now r = (refl, refl)
login-Same lib q (some password) tok id now r = ground arith

pub logout-Same : (q : Request) (now : ℕ) (r : Relay) → Same r (handle_logout q now r).2
unfolding handle_logout session_from_request write append_audit
logout-Same q now r = ground arith

try_codes-devices :
    (lib : Library) (random : List (List ℕ)) (now ttl : ℕ) (s : Store)
    → (try_codes lib random now ttl s).1.devices ≡ s.devices
unfolding try_codes create_pair_code
try_codes-devices lib [] now ttl s = refl
try_codes-devices lib (b ∷ bs) now ttl s =
    let row = row_of lib (new_pair_code b) now ttl in
    ground (arith, try_codes-devices lib bs now ttl (create_pair_code row s).0)

pub new_code-Same :
    (lib : Library) (random : List (List ℕ)) (q : Request) (now : ℕ) (r : Relay)
    → Same r (handle_pair_new lib random q now r).2
unfolding handle_pair_new session_from_request write append_audit purge_pair_codes
new_code-Same lib random q now r =
    let s = purge_pair_codes lib.date (now - one_day) r.store in
    ground (arith, try_codes-devices lib random now r.pair_code_ttl s)

decide_approval-devices :
    (hub : Server) (key : String) (q : hub_approvals.Request) (row : Option Approval) (now : ℕ)
    (st : Store)
    → ((write_all (decide_approval hub key q row now).1 now st).devices ≡ st.devices)
      × ((decide_approval hub key q row now).0.devices ≡ hub.devices)
unfolding decide_approval write_all write set_approval_status append_audit
decide_approval-devices hub key q row now st = ground arith

pub session-Same :
    (next : LoginSession → Relay → Step) (q : Request) (now : ℕ) (r : Relay)
    → ((ls : LoginSession) (r1 : Relay) → Same r1 (next ls r1).2)
    → Same r (with_session next q now r).2
unfolding session_from_request
session-Same next q now r h = elim (Option-cases (session_from_request q now r).0) [
  | inl e ↦ ground (arith, e, check-Same q now r)
  | inr (ls, e) ↦ ground (arith, e, check-Same q now r, h ls (session_from_request q now r).1)
]

decide_as-Same :
    (key : String) (decision : DecisionText) (device_id : String) (now : ℕ) (ls : LoginSession)
    (r : Relay)
    → Same r (decide_as key decision device_id now ls r).2
unfolding decide_as
decide_as-Same key decision device_id now ls r =
    let request : hub_approvals.Request = record {
      decision = decision;
      actor = web ls;
      device_hint = device_id;
      req_id = "";
      client_id = "";
    } in
    ground (arith, decide_approval-devices r.hub key request (get_approval key r.store) now r.store)

pub decide-Same :
    (q : Request) (key : String) (body : Option (DecisionText × String)) (now : ℕ) (r : Relay)
    → Same r (handle_approval_decide q key body now r).2
unfolding handle_approval_decide
decide-Same q key none now r = (refl, refl)
decide-Same q key (some (decision, device_id)) now r =
    session-Same (decide_as key decision device_id now) q now r
      (decide_as-Same key decision device_id now)

pub webhook-Same :
    (lib : Library) (q : Request) (body : Option String) (now : ℕ) (r : Relay)
    → Same r (handle_webhook_put lib q body now r).2
unfolding handle_webhook_put session_from_request set_setting write append_audit
webhook-Same lib q none now r = (refl, refl)
webhook-Same lib q (some url) now r = ground arith
