-- ===== src/Hooks/Approvals.antt =====
-- internal/hooks/approvals.go: the approvals that wait for an answer. The mutex makes each method one
-- step, and `now` is the clock's reading in it. A channel is an entry of `chans`, its one-place buffer;
-- an approval and the handler blocked on it share the channel's number.
pub mod Sorting
pub mod Settled
pub mod Invariant
pub mod Runs
pub mod Once
pub mod Delivery
pub mod Sessions
pub mod Closings
pub mod Tests
use terminal_x.Common.{
  ℕ, suc, ◌+◌, ◌-◌, ◌*◌, ◌^◌, Bool, true, false, not, ◌&&◌, String, Option, none, some, List, [],
  ◌∷◌, ltb, nat_beq, if◌then◌else◌, nat_key, string_key,
}
use terminal_x.Common.Maps.{lookup, insert, adjust}
use terminal_x.Proto.Messages.{Approval, ApprovalStatus, is_pending, is_hook}
use Sorting.{sort_by}

-- The texts that a decision may be; `nothing` is the empty one.
pub data Choice : Type 0 where
  nothing allow deny : Choice
  other : String → Choice

pub record Decision : Type 0 where
  pub decision : Choice
  pub by : String

pub record Pending : Type 0 where
  pub a : Approval
  pub ch : Option ℕ

pub record Store : Type 0 where
  pub items : List (String × Pending)
  pub chans : List (ℕ × Option Decision)
  pub next_chan : ℕ

abbrev pub dedupe_window : ℕ
dedupe_window = 60 * 10 ^ 9

unfoldable pub new_store : Store
new_store = record { items = []; chans = []; next_chan = 0 }

-- a pending approval of the same key that is younger than the window
abbrev pub duplicate : Store → Approval → ℕ → Option Approval
duplicate s a now = elim (lookup a.key s.items) [
  | none ↦ none
  | some p ↦
      if is_pending p.a.status && ltb (now - p.a.created_at) dedupe_window then some p.a else none
]

pub register : Store → Approval → Store
register s a =
    if is_hook a.level
    then record {
      items = insert a.key (record { a = a; ch = some s.next_chan }) s.items;
      chans = insert s.next_chan none s.chans;
      next_chan = suc s.next_chan;
    }
    else record s { items = insert a.key (record { a = a; ch = none }) s.items }

-- The approval that is stored, whether it is a duplicate, and the store.
unfoldable pub add : Store → Approval → ℕ → Approval × Bool × Store
unfolding register
add s a now =
    let fresh = record a { status = ApprovalStatus.pending } in
    elim (duplicate s a now) [ some old ↦ (old, true, s) | none ↦ (fresh, false, register s fresh) ]

-- `select` with a default: a full channel keeps what it has.
abbrev pub offer : Decision → Option Decision → Option Decision
offer d none = some d
offer d (some old) = some old

abbrev send : Option ℕ → Decision → List (ℕ × Option Decision) → List (ℕ × Option Decision)
send none d chans = chans
send (some c) d chans = adjust c (offer d) chans

abbrev pub mark : ApprovalStatus → String → ℕ → Approval → Approval
mark status by now a = record a { status = status; decided_by = by; decided_at = some now }

-- what `Decide` and `Close` do with a pending approval
settle : Store → String → Pending → ApprovalStatus → String → ℕ → Decision → Option Approval × Store
settle s key p status by now d = (
  some (mark status by now p.a),
  record s {
    items = adjust key (λ q. record q { a = mark status by now q.a }) s.items;
    chans = send p.ch d s.chans;
  },
)

abbrev pub status_of : Choice → ApprovalStatus
status_of allow = ApprovalStatus.allowed
status_of _ = ApprovalStatus.denied

abbrev pub pending_item : Store → String → Option Pending
pending_item s key = elim (lookup key s.items) [
  | none ↦ none
  | some p ↦ if is_pending p.a.status then some p else none
]

-- `none` is the answer false.
unfoldable pub decide : Store → String → Choice → String → ℕ → Option Approval × Store
unfolding settle
decide s key choice by now = elim (pending_item s key) [
  | none ↦ (none, s)
  | some p ↦ settle s key p (status_of choice) by now (record { decision = choice; by = by })
]

unfoldable pub close : Store → String → ApprovalStatus → String → ℕ → Option Approval × Store
unfolding settle
close s key status by now = elim (pending_item s key) [
  | none ↦ (none, s)
  | some p ↦ settle s key p status by now (record { decision = nothing; by = "" })
]

unfoldable pub get : Store → String → Option Approval
get s key = elim (lookup key s.items) [ none ↦ none | some p ↦ some p.a ]

unfoldable pub pending_of : List (String × Pending) → List Approval
pending_of [] = []
pending_of ((k, p) ∷ m) =
    let rest = pending_of m in if is_pending p.a.status then p.a ∷ rest else rest

-- Oldest first; `sort.Slice` leaves the order of equal times open, and here it is that of the map.
unfoldable pub pending : Store → List Approval
unfolding pending_of
pending s = sort_by (λ a. a.created_at) (pending_of s.items)

unfoldable pub of_session : ℕ → List Approval → List Approval
of_session sid [] = []
of_session sid (a ∷ as') =
    let rest = of_session sid as' in if nat_beq a.sid sid then a ∷ rest else rest

unfoldable pub pending_for_session : Store → ℕ → List Approval
pending_for_session s sid = of_session sid (pending s)

abbrev cons_some : Option Approval → List Approval → List Approval
cons_some none out = out
cons_some (some a) out = a ∷ out

unfoldable pub close_each :
    Store → List Approval → ApprovalStatus → String → ℕ → List Approval × Store
close_each s [] status by now = ([], s)
close_each s (a ∷ as') status by now =
    let (closed, s') = close s a.key status by now in
    let (out, s'') = close_each s' as' status by now in (cons_some closed out, s'')

unfoldable pub close_session : Store → ℕ → ApprovalStatus → String → ℕ → List Approval × Store
close_session s sid status by now = close_each s (pending_for_session s sid) status by now

unfoldable pub wait : Store → String → Option ℕ
wait s key = elim (lookup key s.items) [ none ↦ none | some p ↦ p.ch ]

-- The receive of the blocked handler: `none` while the channel is empty.
unfoldable pub receive : Store → ℕ → Option (Decision × Store)
receive s c = elim (lookup c s.chans) [
  | some (some d) ↦ some (d, record s { chans = insert c none s.chans })
  | _ ↦ none
]

abbrev pub expired : ℕ → ℕ → Pending → Bool
expired now max_age p = elim p.a.decided_at [
  | none ↦ false
  | some t ↦ not (is_pending p.a.status) && ltb max_age (now - t)
]

unfoldable pub sweep_items : ℕ → ℕ → List (String × Pending) → List (String × Pending)
sweep_items now max_age [] = []
sweep_items now max_age ((k, p) ∷ m) =
    let rest = sweep_items now max_age m in if expired now max_age p then rest else (k, p) ∷ rest

unfoldable pub sweep : Store → ℕ → ℕ → Store
unfolding sweep_items
sweep s max_age now = record s { items = sweep_items now max_age s.items }
