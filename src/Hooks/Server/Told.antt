-- ===== src/Hooks/Server/Told.antt =====
-- What the events say of an approval, against the store.
pub mod Claude
pub mod Codex
use text.Mathlib.TextPositions.{eq_refl}
use terminal_x.Common.{
  ℕ, ◌≡◌, inl, inr, refl, ◌∙◌, true, false, ◌||◌, String, Option, some, List, All, All-append, [],
  ◌∷◌, ◌++◌, arith, Bool-cases, Option-cases, string_key, ◌==◌,
}
use terminal_x.Proto.Messages.{Approval, ApprovalStatus, ApprovalMode, is_pending}
use terminal_x.Hooks.Approvals.{Store, get, add, close, close_session, duplicate}
use terminal_x.Hooks.Approvals.Settled.{add_fresh}
use terminal_x.Hooks.Approvals.Invariant.{Inv, add-Inv, close-Inv}
use terminal_x.Hooks.Approvals.Closings.{
  SettledIn, close-SettledIn, close_session-SettledIn, close_session-Inv,
}
use terminal_x.Hooks.Server.{
  handle_claude, claude_event, permission_request, permission_end, notification, Outcome,
  handle_status_line,
}
use terminal_x.Hooks.Server.Inputs.{Library, Hook, Notification, ClaudeInput, named_hook}
use terminal_x.Hooks.Server.Calls.{
  Event, Body, Step, told_closed, told_new, close_told, close_stale, add_told, bound, no_input,
}
use terminal_x.Hooks.Server.Codex.{codex_event, handle_codex_hook, handle_codex_notify}

-- An approval that is announced is in the store as it is told, and pending; one whose end is told is in
-- the store as it is told, and settled.
abbrev pub Tells : Store → Event → Type 0
Tells s (Event.approval_new a) = (get s a.key ≡ some a) × (is_pending a.status ≡ true)
Tells s (Event.approval_closed a by) = SettledIn s a
Tells s _ = Unit

pub record Agrees (told : List Event) (s : Store) : Type 0 where
  pub kept : Inv s
  pub tells : All (Tells s) told

told_closed-Tells :
    (s : Store) (by : String) (as' : List Approval)
    → All (SettledIn s) as'
    → All (Tells s) (told_closed by as')
told_closed-Tells s by [] h = tt
told_closed-Tells s by (a ∷ as') h = (h.0, told_closed-Tells s by as' h.1)

pub bound-Tells : (s : Store) (sid : ℕ) (agent id : String) → All (Tells s) (bound sid agent id)
bound-Tells s sid agent id = elim (Bool-cases (id == "")) [
  | inl e ↦ rw e tt
  | inr e ↦ rw e (tt, tt)
]

pub close_told-Agrees :
    (key : String) (status : ApprovalStatus) (by : String) (now : ℕ) (s : Store)
    → is_pending status ≡ false
    → Inv s
    → Agrees (close_told key status by now s).0 (close_told key status by now s).1
unfolding close_told
close_told-Agrees key status by now s final v = record {
  kept = close-Inv s key status by now final v;
  tells = elim (Option-cases (close s key status by now).0) [
    | inl n ↦ rw n tt
    | inr (a, e) ↦ rw e (close-SettledIn status by now final s key a v e, tt)
  ];
}

pub close_stale-Agrees :
    (sid now : ℕ) (s : Store) → Inv s → Agrees (close_stale sid now s).0 (close_stale sid now s).1
unfolding close_stale
close_stale-Agrees sid now s v =
    let status = ApprovalStatus.closed_local in
    record {
      kept = close_session-Inv status "local" now refl s sid v;
      tells =
          told_closed-Tells (close_session s sid status "local" now).1 "local"
            (close_session s sid status "local" now).0
            (close_session-SettledIn status "local" now refl s sid v);
    }

pub new-Tells :
    (a : Approval) (now : ℕ) (s : Store)
    → All (Tells (add s a now).2) (told_new (add s a now).1 (add s a now).0)
unfolding add
new-Tells a now s = elim (Option-cases (duplicate s a now)) [
  | inl e ↦
      let (same, new, found, _) = add_fresh s a now a.created_at a.key e (omega arith) in
      rw (new, same) ((found ∙ ground (arith, eq_refl a.key), refl), tt)
  | inr (old, e) ↦ rw (e, add) tt
]

pub add_told-Agrees :
    (a : Approval) (now : ℕ) (s : Store) → Inv s → Agrees (add_told a now s).0 (add_told a now s).1
unfolding add_told
add_told-Agrees a now s v = record { kept = add-Inv s a now v; tells = new-Tells a now s }

abbrev pub Kept : Step → Type 0
Kept (told, s) = Agrees told s

-- Events that are not about approvals, before and after.
around :
    (front told back : List Event) (s : Store)
    → All (Tells s) front
    → All (Tells s) back
    → Agrees told s
    → Agrees (front ++ (told ++ back)) s
around front told back s f b g = record {
  kept = g.kept;
  tells = All-append (Tells s) front (told ++ back) f (All-append (Tells s) told back g.tells b);
}

pub after :
    (told back : List Event) (s : Store)
    → All (Tells s) back
    → Agrees told s
    → Agrees (told ++ back) s
after told back s b g = around [] told back s tt b g

pub before_one :
    (e : Event) (told : List Event) (s : Store) → Tells s e → Agrees told s → Agrees (e ∷ told) s
before_one e told s t g = record { kept = g.kept; tells = (t, g.tells) }
