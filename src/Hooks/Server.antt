-- ===== src/Hooks/Server.antt =====
-- internal/hooks/server.go: the handlers of the agent's local endpoint that Claude calls, on the bodies they
-- read. A permission request that has to wait is two steps: up to the `select`, and the branch of it that
-- is taken.
pub mod Inputs
pub mod Calls
pub mod Codex
pub mod Told
pub mod Serve
pub mod Waiting
pub mod Ended
pub mod Tests
use terminal_x.Common.{
  ℕ, ◌+◌, ◌*◌, ◌^◌, Bool, true, false, ◌||◌, String, Option, none, some, List, [], ◌∷◌, ◌++◌,
  if◌then◌else◌, string_key, ◌==◌,
}
use terminal_x.Proto.Messages.{
  SessionState, NeedKind, Source, Confidence, ApprovalMode, ApprovalLevel, ApprovalStatus, Approval,
  is_hook,
}
use terminal_x.Hooks.Approvals.{Store, Choice, Decision, add, close, close_session, wait}
use Inputs.{
  Library, Hook, Notification, ClaudeInput, named_hook, approval_key, notification_text,
  notification_key, notification_summary, decided_text,
}
use Calls.{
  Event, Response, Reply, Body, Step, timeout_of, state, told_new, close_told, close_stale,
  add_told, bound, blank, requested, before, answered, then_state, no_input,
}

abbrev pub level_of : ApprovalMode → ApprovalLevel
level_of ApprovalMode.remote_first = ApprovalLevel.hook
level_of _ = ApprovalLevel.keys

abbrev pub hook_deadline : ApprovalLevel → ℕ → Option ℕ
hook_deadline ApprovalLevel.hook t = some t
hook_deadline _ t = none

abbrev pub waits_on : String → Option ℕ → Reply
waits_on key none = Reply.answers Response.empty_object
waits_on key (some c) = Reply.waits key c

-- `permissionRequest` up to the `select`.
unfoldable pub permission_request :
    Library → Option ℕ → ℕ → ApprovalMode → ClaudeInput → ℕ → Store → Reply × Step
permission_request lib timeout sid mode input now s =
    let level = level_of mode in
    let asked = requested lib "claude" level sid mode input now in
    let a = record asked { hook_timeout_at = hook_deadline level (now + timeout_of timeout) } in
    let (stored, dup, s') = add s a now in
    let told =
      state sid Source.hook SessionState.needs_input NeedKind.permission ∷ told_new dup stored in
    (
      if is_hook level
          then waits_on stored.key (wait s' stored.key)
          else Reply.answers Response.empty_object,
      (told, s'),
    )

pub data Outcome : Type 0 where
  received : Decision → Outcome
  times_out : Outcome
  cancelled : Outcome

abbrev pub verdict_of : Decision → Response
verdict_of d = elim d.decision [
  | Choice.allow ↦ Response.verdict d.decision (decided_text d.by)
  | Choice.deny ↦ Response.verdict d.decision (decided_text d.by)
  | _ ↦ Response.empty_object
]

-- The branches of the `select`.
unfoldable pub permission_end : String → Outcome → ℕ → Store → Response × Step
permission_end key (received d) now s = (verdict_of d, ([], s))
permission_end key times_out now s =
    (Response.empty_object, close_told key ApprovalStatus.fallback "timeout" now s)
permission_end key cancelled now s =
    (Response.silent, close_told key ApprovalStatus.fallback "timeout" now s)

-- The approval of a notification that asks for the user.
abbrev pub asked_by : Library → ℕ → ApprovalMode → ClaudeInput → ℕ → Approval
asked_by lib sid mode input now = record blank {
  key = notification_key lib input;
  sid = sid;
  agent = "claude";
  tool = notification_text input.notification_type;
  summary = notification_summary input;
  cwd = input.cwd;
  level = ApprovalLevel.keys;
  mode = mode;
  created_at = now;
}

abbrev asks : Library → ℕ → ApprovalMode → ClaudeInput → ℕ → Store → Step
asks lib sid mode input now s =
    before (state sid Source.hook SessionState.needs_input NeedKind.question ∷ [])
      (add_told (asked_by lib sid mode input now) now s)

abbrev reports : ℕ → SessionState → NeedKind → Store → Step
reports sid st kind s = (state sid Source.hook st kind ∷ [], s)

-- `notification`, by its type.
unfoldable pub notification :
    Library → ℕ → ApprovalMode → Notification → ClaudeInput → ℕ → Store → Step
notification lib sid mode Notification.permission_prompt input now s =
    reports sid SessionState.needs_input NeedKind.permission s
notification lib sid mode Notification.idle_prompt input now s =
    reports sid SessionState.idle NeedKind.unset s
notification lib sid mode Notification.agent_needs_input input now s = asks lib sid mode input now s
notification lib sid mode Notification.elicitation_dialog input now s =
    asks lib sid mode input now s
notification lib sid mode Notification.elicitation_url_dialog input now s =
    asks lib sid mode input now s
notification lib sid mode Notification.quota_auto_resume_fired input now s =
    reports sid SessionState.quota_wait NeedKind.unset s
notification lib sid mode Notification.quota_auto_resume_stale input now s =
    reports sid SessionState.quota_wait NeedKind.unset s
notification lib sid mode Notification.quota_auto_resume_disabled input now s =
    reports sid SessionState.quota_wait NeedKind.unset s
notification lib sid mode (Notification.other _) input now s = ([], s)

unfoldable pub claude_event :
    Library → Option ℕ → ℕ → ApprovalMode → Hook → ClaudeInput → ℕ → Store → Reply × Step
claude_event lib timeout sid mode Hook.session_start input now s =
    answered (then_state sid Source.hook SessionState.running ([], s))
claude_event lib timeout sid mode Hook.user_prompt_submit input now s =
    answered (then_state sid Source.hook SessionState.running ([], s))
claude_event lib timeout sid mode Hook.permission_request input now s =
    permission_request lib timeout sid mode input now s
claude_event lib timeout sid mode Hook.post_tool_use input now s =
    let key = approval_key lib input.session_id input.tool_name input.tool_input in
    answered (
      then_state sid Source.hook SessionState.running
        (close_told key ApprovalStatus.closed_local "local" now s))
claude_event lib timeout sid mode Hook.notification input now s =
    answered (notification lib sid mode input.notification_type input now s)
claude_event lib timeout sid mode Hook.stop input now s =
    answered (then_state sid Source.hook SessionState.idle (close_stale sid now s))
claude_event lib timeout sid mode Hook.stop_failure input now s =
    answered (then_state sid Source.hook SessionState.failed (close_stale sid now s))
claude_event lib timeout sid mode Hook.session_end input now s =
    let (told, s') = close_stale sid now s in
    answered (then_state sid Source.hook SessionState.idle (told ++ Event.tool_exited sid ∷ [], s'))
claude_event lib timeout sid mode _ input now s = answered ([], s)

abbrev with_told : List Event → Reply × Step → Reply × Step
with_told told (reply, x) = (reply, before told x)

abbrev claude_input :
    Library → Option ℕ → ℕ → ApprovalMode → Hook → ClaudeInput → ℕ → Store → Reply × Step
claude_input lib timeout sid mode event input now s =
    with_told (bound sid "claude" input.session_id)
      (claude_event lib timeout sid mode (named_hook input.hook_event_name event) input now s)

unfoldable pub handle_claude :
    Library → Option ℕ → ℕ → ApprovalMode → Hook → Body ClaudeInput → ℕ → Store → Reply × Step
handle_claude lib timeout sid mode event Body.unreadable now s =
    (Reply.answers Response.bad_request, ([], s))
handle_claude lib timeout sid mode event Body.malformed now s =
    (Reply.answers Response.bad_request, ([], s))
handle_claude lib timeout sid mode event Body.empty now s =
    claude_input lib timeout sid mode event no_input now s
handle_claude lib timeout sid mode event (Body.decoded input) now s =
    claude_input lib timeout sid mode event input now s

-- `handleStatusLine`: the cost and the used part of the context.
unfoldable pub handle_status_line : ℕ → Body (Option ℕ × Option ℕ) → Store → Reply × Step
handle_status_line sid (Body.decoded (cost, used)) s =
    (Reply.answers Response.no_content, (Event.session_updated sid cost used ∷ [], s))
handle_status_line sid _ s = (Reply.answers Response.bad_request, ([], s))
