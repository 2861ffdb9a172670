-- ===== src/Relay/Store/Steps.antt =====
-- The relay's store as a transition system: every operation that writes, in any order.
use terminal_x.Common.{ℕ, String, List}
use terminal_x.Proto.Messages.{Approval, ApprovalStatus}
use terminal_x.Relay.Store.{
  Store, Device, PairCode, AuditEntry, create_device, rename_device, touch_device, revoke_device,
}
use terminal_x.Relay.Store.Codes.{
  create_pair_code, inc_pair_attempts, redeem_pair_code, purge_pair_codes,
}
use terminal_x.Relay.Store.Records.{upsert_approval, set_approval_status, append_audit, set_setting}

pub data Step (date : ℕ → List ℕ) (s : Store) : Store → Type 0 where
  creates_device : (d : Device) → Step date s (create_device d s).0
  renames_device : (id name : String) → Step date s (rename_device id name s).0
  touches_device :
      (id : String) (at : ℕ) (os version : String) → Step date s (touch_device id at os version s)
  revokes_device : (id : String) (at : ℕ) → Step date s (revoke_device id at s).0
  creates_pair_code : (p : PairCode) → Step date s (create_pair_code p s).0
  counts_attempt : (code : String) → Step date s (inc_pair_attempts code s)
  redeems_pair_code : (code : String) (now : ℕ) → Step date s (redeem_pair_code date code now s).0
  purges_pair_codes : (cutoff : ℕ) → Step date s (purge_pair_codes date cutoff s)
  upserts_approval : (a : Approval) → Step date s (upsert_approval a s)
  sets_approval_status :
      (key : String) (status : ApprovalStatus) (by : String) (at : ℕ)
      → Step date s (set_approval_status key status by at s).0
  appends_audit : (e : AuditEntry) (now : ℕ) → Step date s (append_audit e now s)
  sets_setting : (k v : String) → Step date s (set_setting k v s)

pub data Later (date : ℕ → List ℕ) (s : Store) : Store → Type 0 where
  here : Later date s s
  then : (t u : Store) → Later date s t → Step date t u → Later date s u
