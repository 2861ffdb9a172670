-- ===== src/Hooks/Server/Codex.antt =====
-- internal/hooks/server.go: what Codex reports, by its notify program and by the command hooks.
use terminal_x.Common.{ℕ, ◌||◌, String, [], ◌∷◌, ◌++◌, if◌then◌else◌, string_key, ◌==◌}
use terminal_x.Proto.Messages.{
  SessionState, NeedKind, Source, ApprovalMode, ApprovalLevel, ApprovalStatus,
}
use terminal_x.Hooks.Approvals.{Store}
use terminal_x.Hooks.Server.Inputs.{Library, Hook, ClaudeInput, approval_key, named_hook}
use terminal_x.Hooks.Server.Calls.{
  Event, Response, Reply, Body, Step, state, close_told, close_stale, add_told, bound, requested,
  before, answered, then_state, no_input,
}

-- `handleCodexNotify`: the type of the notice and the thread.
unfoldable pub handle_codex_notify : ℕ → Body (String × String) → Store → Reply × Step
handle_codex_notify sid (Body.decoded (kind, thread)) s =
    let idle =
      if kind == "agent-turn-complete" || kind == ""
      then state sid Source.notify SessionState.idle NeedKind.unset ∷ []
      else [] in
    answered (bound sid "codex" thread ++ idle, s)
handle_codex_notify sid _ s = (Reply.answers Response.bad_request, ([], s))

unfoldable pub codex_event : Library → ℕ → ApprovalMode → Hook → ClaudeInput → ℕ → Store → Step
codex_event lib sid mode Hook.session_start input now s =
    then_state sid Source.hooks_json SessionState.running (bound sid "codex" input.session_id, s)
codex_event lib sid mode Hook.user_prompt_submit input now s =
    then_state sid Source.hooks_json SessionState.running ([], s)
codex_event lib sid mode Hook.pre_tool_use input now s =
    then_state sid Source.hooks_json SessionState.running ([], s)
codex_event lib sid mode Hook.permission_request input now s =
    before (state sid Source.hooks_json SessionState.needs_input NeedKind.permission ∷ [])
      (add_told (requested lib "codex" ApprovalLevel.keys sid mode input now) now s)
codex_event lib sid mode Hook.post_tool_use input now s =
    let key = approval_key lib input.session_id input.tool_name input.tool_input in
    then_state sid Source.hooks_json SessionState.running
      (close_told key ApprovalStatus.closed_local "local" now s)
codex_event lib sid mode Hook.stop input now s =
    then_state sid Source.hooks_json SessionState.idle ([], s)
codex_event lib sid mode Hook.session_end input now s =
    let (told, s') = close_stale sid now s in
    then_state sid Source.hooks_json SessionState.idle (told ++ Event.tool_exited sid ∷ [], s')
codex_event lib sid mode _ input now s = ([], s)

unfoldable pub handle_codex_hook :
    Library → ℕ → ApprovalMode → Hook → Body ClaudeInput → ℕ → Store → Reply × Step
handle_codex_hook lib sid mode event Body.unreadable now s =
    (Reply.answers Response.bad_request, ([], s))
handle_codex_hook lib sid mode event Body.malformed now s =
    (Reply.answers Response.bad_request, ([], s))
handle_codex_hook lib sid mode event Body.empty now s =
    answered (codex_event lib sid mode (named_hook Hook.unset event) no_input now s)
handle_codex_hook lib sid mode event (Body.decoded input) now s =
    answered (codex_event lib sid mode (named_hook input.hook_event_name event) input now s)
