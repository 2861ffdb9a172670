-- ===== src/Hooks/Server/Ended.antt =====
-- The ends of a turn and of a session.
use terminal_x.Common.{
  ℕ, ◌≡◌, inl, inr, refl, ap, Bool, true, false, Option, some, String, List, [], ◌∷◌, ◌++◌,
  if◌then◌else◌, nat_beq, Bool-cases,
}
use terminal_x.Proto.Messages.{Approval, ApprovalStatus, ApprovalMode, is_pending}
use terminal_x.Hooks.Approvals.{Store, get, mark}
use terminal_x.Hooks.Approvals.Sorting.{In}
use terminal_x.Hooks.Approvals.Invariant.{Inv}
use terminal_x.Hooks.Approvals.Sessions.{open_at, close_session_lem}
use terminal_x.Hooks.Approvals.Closings.{close_session_complete}
use terminal_x.Hooks.Server.{claude_event}
use terminal_x.Hooks.Server.Inputs.{Library, Hook, ClaudeInput}
use terminal_x.Hooks.Server.Calls.{Event, Response, Reply, Step, told_closed, close_stale}

abbrev pub ends : Hook → Bool
ends Hook.stop = true
ends Hook.stop_failure = true
ends Hook.session_end = true
ends _ = false

told_closed-In :
    (by : String) (as' : List Approval) (a : Approval)
    → In a as'
    → In (Event.approval_closed a by) (told_closed by as')
told_closed-In by [] a h = absurd h
told_closed-In by (b ∷ as') a (inl e) = inl (ap (λ x. Event.approval_closed x by) e)
told_closed-In by (b ∷ as') a (inr h) = inr (told_closed-In by as' a h)

In-append : (e : Event) (front back : List Event) → In e front → In e (front ++ back)
In-append e [] back h = absurd h
In-append e (f ∷ front) back (inl q) = inl q
In-append e (f ∷ front) back (inr h) = inr (In-append e front back h)

-- The approval is not pending any more, and its end is told if it was; another session's is untouched.
abbrev pub Ended : ℕ → ℕ → String → Approval → Step → Type 0
Ended sid now k a (told, s') =
    if nat_beq a.sid sid
    then (open_at s' k ≡ false)
      × (is_pending a.status ≡ true
          → In (Event.approval_closed (mark ApprovalStatus.closed_local "local" now a) "local")
              told)
    else get s' k ≡ some a

close_stale-Ended :
    (sid now : ℕ) (s : Store) (k : String) (a : Approval)
    → Inv s
    → get s k ≡ some a
    → Ended sid now k a (close_stale sid now s)
unfolding close_stale
close_stale-Ended sid now s k a v e =
    let status = ApprovalStatus.closed_local in
    let closed = close_session_lem s sid status "local" now k a v refl e in
    elim (Bool-cases (nat_beq a.sid sid)) [
      | inl own ↦
          let shut = rw own at closed in
          rw own (
            shut,
            λ o.
                told_closed-In "local" _ _
                  (close_session_complete status "local" now refl s sid k a e o shut),
          )
      | inr other ↦ rw other (rw other at closed)
    ]

more-Ended :
    (sid now : ℕ) (k : String) (a : Approval) (told more : List Event) (s : Store)
    → Ended sid now k a (told, s)
    → Ended sid now k a (told ++ more, s)
more-Ended sid now k a told more s h = elim (Bool-cases (nat_beq a.sid sid)) [
  | inl own ↦ let g = rw own at h in rw own (g.0, λ o. In-append _ told more (g.1 o))
  | inr other ↦ rw other (rw other at h)
]

-- When Claude's turn or session ends, in a store that keeps its invariant, the hook is answered at once,
-- no approval of that session is pending any more, each that was is told closed, and the approvals of
-- other sessions are untouched.
pub claude_event-Ended :
    (lib : Library) (timeout : Option ℕ) (sid : ℕ) (mode : ApprovalMode) (h : Hook)
    (input : ClaudeInput) (now : ℕ) (s : Store) (k : String) (a : Approval)
    → ends h ≡ true
    → Inv s
    → get s k ≡ some a
    → ((claude_event lib timeout sid mode h input now s).0 ≡ Reply.answers Response.empty_object)
      × Ended sid now k a (claude_event lib timeout sid mode h input now s).1
unfolding claude_event
claude_event-Ended lib timeout sid mode Hook.stop input now s k a h v e =
    (refl, more-Ended sid now k a _ _ _ (close_stale-Ended sid now s k a v e))
claude_event-Ended lib timeout sid mode Hook.stop_failure input now s k a h v e =
    (refl, more-Ended sid now k a _ _ _ (close_stale-Ended sid now s k a v e))
claude_event-Ended lib timeout sid mode Hook.session_end input now s k a h v e = (
  refl,
  more-Ended sid now k a _ _ _ (more-Ended sid now k a _ _ _ (close_stale-Ended sid now s k a v e)),
)
claude_event-Ended lib timeout sid mode Hook.unset input now s k a h v e = cc
claude_event-Ended lib timeout sid mode Hook.session_start input now s k a h v e = cc
claude_event-Ended lib timeout sid mode Hook.user_prompt_submit input now s k a h v e = cc
claude_event-Ended lib timeout sid mode Hook.pre_tool_use input now s k a h v e = cc
claude_event-Ended lib timeout sid mode Hook.permission_request input now s k a h v e = cc
claude_event-Ended lib timeout sid mode Hook.post_tool_use input now s k a h v e = cc
claude_event-Ended lib timeout sid mode Hook.notification input now s k a h v e = cc
claude_event-Ended lib timeout sid mode (Hook.other _) input now s k a h v e = cc
