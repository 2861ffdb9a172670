-- ===== src/Hooks/Server/Waiting.antt =====
-- The permission requests that wait for a remote decision.
use mathlib.Core.Path.{subst}
use terminal_x.Common.{
  ℕ, ◌+◌, ◌≡◌, ◌⊎◌, inl, inr, refl, sym, ◌∙◌, Bool, true, false, Option, none, some, String, [],
  ◌∷◌, if◌then◌else◌, arith, Option-cases, string_key,
}
use terminal_x.Proto.Messages.{ApprovalStatus, ApprovalMode, ApprovalLevel, is_pending}
use terminal_x.Hooks.Approvals.{
  Store, Pending, Choice, Decision, add, decide, receive, wait, pending_item, mark,
}
use terminal_x.Hooks.Approvals.Invariant.{Inv}
use terminal_x.Hooks.Approvals.Settled.{close_lem}
use terminal_x.Hooks.Approvals.Closings.{add-pending_item, wait-pending_item}
use terminal_x.Hooks.Approvals.Delivery.{decide-received}
use terminal_x.Hooks.Server.{
  handle_claude, claude_event, permission_request, permission_end, Outcome, waits_on,
}
use terminal_x.Hooks.Server.Told.Claude.{handle_claude-Agrees}
use terminal_x.Hooks.Server.Inputs.{Library, Hook, ClaudeInput, decided_text, named_hook}
use terminal_x.Hooks.Server.Calls.{Event, Response, Reply, Body, requested, timeout_of, close_told}

abbrev pub is_verdict : Choice → Bool
is_verdict Choice.allow = true
is_verdict Choice.deny = true
is_verdict _ = false

close_told_lem :
    (key : String) (status : ApprovalStatus) (by : String) (now : ℕ) (s : Store)
    → is_pending status ≡ false
    → let (told, s') = close_told key status by now s in
      (pending_item s' key ≡ none)
      × (pending_item s key ≡ none → (told ≡ []) × (s' ≡ s))
      × ((p : Pending)
          → pending_item s key ≡ some p
          → told ≡ Event.approval_closed (mark status by now p.a) by ∷ [])
unfolding close_told
close_told_lem key status by now s final =
    let (gone, done) = close_lem s key status by now in
    (
      elim (Option-cases (pending_item s key)) [
        | inl n ↦ rw (gone n) n
        | inr (p, e) ↦ (done p e).1.no_longer final
      ],
      λ n. (rw (gone n), rw (gone n)),
      λ p e. rw ((done p e).0),
    )

-- When a permission request times out or is cancelled, the tool gets no verdict, and its approval is not
-- pending any more; the end of the approval is told if it was pending, and otherwise nothing is told
-- and the store is unchanged.
pub timed_out :
    (key : String) (o : Outcome) (now : ℕ) (s : Store)
    → (o ≡ Outcome.times_out) ⊎ (o ≡ Outcome.cancelled)
    → let (reply, (told, s')) = permission_end key o now s in
      ((reply ≡ Response.empty_object) ⊎ (reply ≡ Response.silent))
      × (pending_item s' key ≡ none)
      × (pending_item s key ≡ none → (told ≡ []) × (s' ≡ s))
      × ((p : Pending)
          → pending_item s key ≡ some p
          → told
            ≡ Event.approval_closed (mark ApprovalStatus.fallback "timeout" now p.a) "timeout" ∷ [])
unfolding permission_end
timed_out key Outcome.times_out now s h =
    let (a, b, c) = close_told_lem key ApprovalStatus.fallback "timeout" now s refl in
    (inl refl, a, b, c)
timed_out key Outcome.cancelled now s h =
    let (a, b, c) = close_told_lem key ApprovalStatus.fallback "timeout" now s refl in
    (inr refl, a, b, c)
timed_out key (Outcome.received d) now s h = absurd (elim h [ inl e ↦ cc | inr e ↦ cc ])

waits_on-some :
    (k key : String) (o : Option ℕ) (c : ℕ)
    → waits_on k o ≡ Reply.waits key c
    → (k ≡ key) × (o ≡ some c)
waits_on-some k key none c e = cc
waits_on-some k key (some d) c e = (cc, cc)

-- A handler that waits is one of a permission request in remote-first mode.
permission_request-waits :
    (lib : Library) (timeout : Option ℕ) (sid : ℕ) (mode : ApprovalMode) (input : ClaudeInput)
    (now : ℕ) (s : Store) (key : String) (c : ℕ)
    → Inv s
    → (permission_request lib timeout sid mode input now s).0 ≡ Reply.waits key c
    → (mode ≡ ApprovalMode.remote_first)
      × ((p : Pending) × (pending_item (permission_request lib timeout sid mode input now s).1.1 key
            ≡ some p)
          × (p.ch ≡ some c))
unfolding permission_request
permission_request-waits lib timeout sid ApprovalMode.remote_first input now s key c v e =
    let a =
      record (requested lib "claude" ApprovalLevel.hook sid ApprovalMode.remote_first input now) {
        hook_timeout_at = some (now + timeout_of timeout);
      } in
    let (p, held, same) = add-pending_item s a now v in
    let (k, on) =
      waits_on-some (add s a now).0.key key (wait (add s a now).2 (add s a now).0.key) c e in
    (
      refl,
      (
        p,
        subst (λ i. pending_item (add s a now).2 i ≡ some p) k held,
        sym (wait-pending_item (add s a now).2 (add s a now).0.key p held) ∙ on,
      ),
    )
permission_request-waits lib timeout sid ApprovalMode.notify input now s key c v e = cc
permission_request-waits lib timeout sid ApprovalMode.unset input now s key c v e = cc
permission_request-waits lib timeout sid (ApprovalMode.other _) input now s key c v e = cc

claude_event-waits :
    (lib : Library) (timeout : Option ℕ) (sid : ℕ) (mode : ApprovalMode) (h : Hook)
    (input : ClaudeInput) (now : ℕ) (s : Store) (key : String) (c : ℕ)
    → Inv s
    → (claude_event lib timeout sid mode h input now s).0 ≡ Reply.waits key c
    → (mode ≡ ApprovalMode.remote_first)
      × ((p : Pending) × (pending_item (claude_event lib timeout sid mode h input now s).1.1 key
            ≡ some p)
          × (p.ch ≡ some c))
unfolding claude_event
claude_event-waits lib timeout sid mode Hook.permission_request input now s key c v e =
    permission_request-waits lib timeout sid mode input now s key c v e
claude_event-waits lib timeout sid mode Hook.unset input now s key c v e = cc
claude_event-waits lib timeout sid mode Hook.session_start input now s key c v e = cc
claude_event-waits lib timeout sid mode Hook.user_prompt_submit input now s key c v e = cc
claude_event-waits lib timeout sid mode Hook.pre_tool_use input now s key c v e = cc
claude_event-waits lib timeout sid mode Hook.post_tool_use input now s key c v e = cc
claude_event-waits lib timeout sid mode Hook.notification input now s key c v e = cc
claude_event-waits lib timeout sid mode Hook.stop input now s key c v e = cc
claude_event-waits lib timeout sid mode Hook.stop_failure input now s key c v e = cc
claude_event-waits lib timeout sid mode Hook.session_end input now s key c v e = cc
claude_event-waits lib timeout sid mode (Hook.other _) input now s key c v e = cc

-- A hook of Claude is kept waiting only in the remote-first mode, and then for the channel of an approval
-- that is pending in the store which the handler leaves, if the store kept its invariant; that channel is
-- empty, the next decision about the approval goes into it, and it can be received from it once:
-- a handler that receives it answers with its verdict if it is allow or deny and else with an empty
-- object, tells nothing, and finds the channel empty after.
pub decide-verdict :
    (lib : Library) (timeout : Option ℕ) (sid : ℕ) (mode : ApprovalMode) (event : Hook)
    (input : ClaudeInput) (now : ℕ) (s : Store) (key : String) (c : ℕ) (choice : Choice)
    (by : String) (later : ℕ)
    → Inv s
    → (handle_claude lib timeout sid mode event (Body.decoded input) now s).0 ≡ Reply.waits key c
    → let s' = (handle_claude lib timeout sid mode event (Body.decoded input) now s).1.1 in
      (mode ≡ ApprovalMode.remote_first)
      × (receive s' c ≡ none)
      × ((d : Decision) × (s3 : Store) × (receive (decide s' key choice by later).1 c
            ≡ some (d, s3))
          × (receive s3 c ≡ none)
          × (permission_end key (Outcome.received d) later s3 ≡ (
            (if is_verdict choice
                then Response.verdict choice (decided_text by)
                else Response.empty_object),
            ([], s3),
          )))
unfolding handle_claude permission_end
decide-verdict lib timeout sid mode event input now s key c choice by later v e =
    let h = named_hook input.hook_event_name event in
    let (remote, (p, held, on)) = claude_event-waits lib timeout sid mode h input now s key c v e in
    let s' = (claude_event lib timeout sid mode h input now s).1.1 in
    let d : Decision = record { decision = choice; by = by } in
    let (s3, gone, got, left) =
      decide-received s' key p c choice by later
        (handle_claude-Agrees lib timeout sid mode event (Body.decoded input) now s v).kept held
        on in
    (remote, gone, (d, s3, got, left, ground arith))
