-- ===== src/Hooks/Approvals/Tests.antt =====
-- A store with one hook request, and the properties at it.
use text.Mathlib.TextEquality.{eq_iff}
use terminal_x.Common.{
  ℕ, true, List, ◌≢◌, arith, ◌≡◌, inl, refl, none, some, [], ◌∷◌, string_key, nat_key,
}
use terminal_x.Common.Maps.{lookup, insert, adjust}
use mathlib.Core.Path.{subst}
use terminal_x.Proto.Messages.{Approval, ApprovalStatus, ApprovalLevel, ApprovalMode}
use terminal_x.Hooks.Approvals.{
  Store, Pending, Choice, new_store, add, decide, close, pending_item, mark,
}
use terminal_x.Hooks.Approvals.Once.{settled_once}
use terminal_x.Hooks.Approvals.Invariant.{Inv}
use terminal_x.Hooks.Approvals.Runs.{Call, adds, run, run-new_store-Inv}

abbrev pub request : Approval
request = record {
  key = "k1";
  sid = 7;
  device_id = "";
  agent = "claude";
  tool = "Bash";
  summary = "rm";
  input = "";
  cwd = "/";
  level = ApprovalLevel.hook;
  mode = ApprovalMode.remote_first;
  created_at = 5;
  hook_timeout_at = none;
  status = ApprovalStatus.pending;
  decided_by = "";
  decided_at = none;
}

abbrev item : Pending
item = record { a = request; ch = some 0 }

abbrev pub one : Store
one = record { items = ("k1", item) ∷ []; chans = (0, none) ∷ []; next_chan = 1 }

add-request : (add new_store request 5).2 ≡ one
unfolding add new_store lookup insert
add-request = refl

one_run-Inv : Inv (run new_store ((5, adds request) ∷ []))
one_run-Inv = run-new_store-Inv ((5, adds request) ∷ [])

one-run : run new_store ((5, adds request) ∷ []) ≡ one
unfolding run add new_store lookup insert
one-run = refl

pub one-Inv : Inv one
one-Inv = subst Inv one-run one_run-Inv

found : lookup "k1" one.items ≡ some item
unfolding lookup
found = refl

open_item : pending_item one "k1" ≡ some item
unfolding lookup
open_item = refl

abbrev settled : Approval
settled = mark ApprovalStatus.denied "web:c" 9 request

abbrev after : Store
after = record {
  items = ("k1", record { a = settled; ch = some 0 }) ∷ [];
  chans = (0, some (record { decision = Choice.deny; by = "web:c" })) ∷ [];
  next_chan = 1;
}

denied : decide one "k1" Choice.deny "web:c" 9 ≡ (some settled, after)
unfolding decide lookup adjust
denied = refl

abbrev calls : List (ℕ × Call)
calls =
    (9, Call.adds (record request { key = "k2" }))
    ∷ (9, Call.receives 0)
    ∷ (9, Call.closes_session 7 "exit")
    ∷ (9, Call.sweeps 0)
    ∷ []

another : (record request { key = "k2" }).key ≢ "k1"
another e = ground (arith, eq_iff "k2" "k1", e)

settled_once_example :
    (decide (run after calls) "k1" Choice.allow "local" 10 ≡ (none, run after calls))
    × (close (run after calls) "k1" ApprovalStatus.closed_local "local" 10
        ≡ (none, run after calls))
settled_once_example =
    settled_once one after "k1" Choice.deny true "web:c" 9 settled calls one-Inv (inl denied)
      (λ e. another e, (tt, (tt, (tt, tt)))) Choice.allow ApprovalStatus.closed_local "local" 10
