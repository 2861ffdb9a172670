-- ===== src/Relay/Store/Records.antt =====
-- The approvals, the audit log and the settings of internal/relay/store/store.go.
use terminal_x.Common.{
  ℕ, suc, ◌%◌, ◌^◌, Bool, String, Option, none, some, List, [], ◌∷◌, ◌++◌, if◌then◌else◌,
  string_key, ◌==◌, nat_beq, ltb, take,
}
use terminal_x.Common.Maps.{lookup, insert}
use terminal_x.Proto.Messages.{Approval, ApprovalStatus, is_pending}
use terminal_x.Relay.Store.{Store, AuditEntry, StoreError}
use terminal_x.Relay.Store.Times.{fmt_time, time_ptr, before}
use terminal_x.Relay.Store.Sql.{select, first, update, affects, order_by}

-- The columns of an approval, which are read back the same way.
abbrev pub columns : Approval → Approval
columns a = record a {
  hook_timeout_at = time_ptr a.hook_timeout_at;
  decided_at = time_ptr a.decided_at;
}

abbrev pub has_key : String → Approval → Bool
has_key key a = a.key == key

unfoldable pub upsert_approval : Approval → Store → Store
upsert_approval a s = record s {
  approvals =
      if affects (has_key a.key) s.approvals
      then update (has_key a.key) (λ _. columns a) s.approvals
      else s.approvals ++ columns a ∷ [];
}

unfoldable pub set_approval_status :
    String → ApprovalStatus → String → ℕ → Store → Store × Option StoreError
set_approval_status key status by at s = (
  record s {
    approvals =
        update (has_key key)
          (λ a. record a { status = status; decided_by = by; decided_at = some at }) s.approvals;
  },
  if affects (has_key key) s.approvals then none else some StoreError.not_found,
)

-- `scanApproval`: a session id is read back with 32 bits.
abbrev pub scan_approval : Approval → Approval
scan_approval a = record (columns a) { sid = a.sid % 2 ^ 32 }

-- `none` is ErrNotFound.
unfoldable pub get_approval : String → Store → Option Approval
get_approval key s = elim (first (has_key key) s.approvals) [
  | none ↦ none
  | some a ↦ some (scan_approval a)
]

abbrev pub or_limit : ℕ → ℕ → ℕ
or_limit limit most = if nat_beq limit 0 then most else limit

unfoldable pub scan_approvals : List Approval → List Approval
scan_approvals [] = []
scan_approvals (a ∷ as') = scan_approval a ∷ scan_approvals as'

abbrev pub newer : (ℕ → List ℕ) → Approval → Approval → Bool
newer date a b = before (fmt_time date b.created_at) (fmt_time date a.created_at)

-- A limit of 0 stands for one that is not positive.
unfoldable pub list_approvals : (ℕ → List ℕ) → Bool → ℕ → Store → List Approval
list_approvals date pending_only limit s = scan_approvals (
    take (or_limit limit 200) (
      order_by (newer date)
        (if pending_only then select (λ a. is_pending a.status) s.approvals else s.approvals)))

abbrev pub at_or_now : ℕ → ℕ → ℕ
at_or_now at now = if nat_beq at 0 then now else at

unfoldable pub append_audit : AuditEntry → ℕ → Store → Store
append_audit e now s = record s {
  audit = s.audit ++ record e { id = suc s.last_id; at = at_or_now e.at now } ∷ [];
  last_id = suc s.last_id;
}

abbrev scan_entry : AuditEntry → AuditEntry
scan_entry e = record e { sid = e.sid % 2 ^ 32 }

unfoldable pub scan_entries : List AuditEntry → List AuditEntry
scan_entries [] = []
scan_entries (e ∷ es) = scan_entry e ∷ scan_entries es

unfoldable pub list_audit : ℕ → Store → List AuditEntry
list_audit limit s =
    scan_entries (take (or_limit limit 100) (order_by (λ a b. ltb b.id a.id) s.audit))

-- The empty text for a key that is not set.
unfoldable pub get_setting : String → Store → String
get_setting k s = elim (lookup k s.settings) [ none ↦ "" | some v ↦ v ]

unfoldable pub set_setting : String → String → Store → Store
set_setting k v s = record s { settings = insert k v s.settings }
