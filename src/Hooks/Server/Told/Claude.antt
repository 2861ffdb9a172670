-- ===== src/Hooks/Server/Told/Claude.antt =====
-- What the handlers of Claude tell.
use terminal_x.Common.{ℕ, refl, String, Option, All-append, string_key}
use terminal_x.Proto.Messages.{ApprovalStatus, ApprovalMode}
use terminal_x.Hooks.Approvals.{Store}
use terminal_x.Hooks.Approvals.Invariant.{Inv, add-Inv}
use terminal_x.Hooks.Server.{
  handle_claude, claude_event, permission_request, permission_end, notification, Outcome,
  handle_status_line,
}
use terminal_x.Hooks.Server.Inputs.{Library, Hook, Notification, ClaudeInput, named_hook}
use terminal_x.Hooks.Server.Calls.{Body, no_input}
-- An approval that is announced is in the store as it is told, and pending; one whose end is told is in
use terminal_x.Hooks.Server.Told.{
  Tells, Kept, bound-Tells, new-Tells, after, before_one, close_told-Agrees, close_stale-Agrees,
  add_told-Agrees,
}

permission_request-Agrees :
    (lib : Library) (timeout : Option ℕ) (sid : ℕ) (mode : ApprovalMode) (input : ClaudeInput)
    (now : ℕ) (s : Store)
    → Inv s
    → Kept (permission_request lib timeout sid mode input now s).1
unfolding permission_request
permission_request-Agrees lib timeout sid mode input now s v = record {
  kept = add-Inv s _ now v;
  tells = (tt, new-Tells _ now s);
}

notification-Agrees :
    (lib : Library) (sid : ℕ) (mode : ApprovalMode) (n : Notification) (input : ClaudeInput)
    (now : ℕ) (s : Store)
    → Inv s
    → Kept (notification lib sid mode n input now s)
unfolding notification
notification-Agrees lib sid mode Notification.permission_prompt input now s v = record {
  kept = v;
  tells = (tt, tt);
}
notification-Agrees lib sid mode Notification.idle_prompt input now s v = record {
  kept = v;
  tells = (tt, tt);
}
notification-Agrees lib sid mode Notification.agent_needs_input input now s v =
    before_one _ _ _ tt (add_told-Agrees _ now s v)
notification-Agrees lib sid mode Notification.elicitation_dialog input now s v =
    before_one _ _ _ tt (add_told-Agrees _ now s v)
notification-Agrees lib sid mode Notification.elicitation_url_dialog input now s v =
    before_one _ _ _ tt (add_told-Agrees _ now s v)
notification-Agrees lib sid mode Notification.quota_auto_resume_fired input now s v = record {
  kept = v;
  tells = (tt, tt);
}
notification-Agrees lib sid mode Notification.quota_auto_resume_stale input now s v = record {
  kept = v;
  tells = (tt, tt);
}
notification-Agrees lib sid mode Notification.quota_auto_resume_disabled input now s v = record {
  kept = v;
  tells = (tt, tt);
}
notification-Agrees lib sid mode (Notification.other _) input now s v = record {
  kept = v;
  tells = tt;
}

claude_event-Agrees :
    (lib : Library) (timeout : Option ℕ) (sid : ℕ) (mode : ApprovalMode) (h : Hook)
    (input : ClaudeInput) (now : ℕ) (s : Store)
    → Inv s
    → Kept (claude_event lib timeout sid mode h input now s).1
unfolding claude_event
claude_event-Agrees lib timeout sid mode Hook.session_start input now s v = record {
  kept = v;
  tells = (tt, tt);
}
claude_event-Agrees lib timeout sid mode Hook.user_prompt_submit input now s v = record {
  kept = v;
  tells = (tt, tt);
}
claude_event-Agrees lib timeout sid mode Hook.permission_request input now s v =
    permission_request-Agrees lib timeout sid mode input now s v
claude_event-Agrees lib timeout sid mode Hook.post_tool_use input now s v =
    after _ _ _ (tt, tt) (close_told-Agrees _ ApprovalStatus.closed_local "local" now s refl v)
claude_event-Agrees lib timeout sid mode Hook.notification input now s v =
    notification-Agrees lib sid mode input.notification_type input now s v
claude_event-Agrees lib timeout sid mode Hook.stop input now s v =
    after _ _ _ (tt, tt) (close_stale-Agrees sid now s v)
claude_event-Agrees lib timeout sid mode Hook.stop_failure input now s v =
    after _ _ _ (tt, tt) (close_stale-Agrees sid now s v)
claude_event-Agrees lib timeout sid mode Hook.session_end input now s v =
    after _ _ _ (tt, tt) (after _ _ _ (tt, tt) (close_stale-Agrees sid now s v))
claude_event-Agrees lib timeout sid mode Hook.unset input now s v = record { kept = v; tells = tt }
claude_event-Agrees lib timeout sid mode Hook.pre_tool_use input now s v = record {
  kept = v;
  tells = tt;
}
claude_event-Agrees lib timeout sid mode (Hook.other _) input now s v = record {
  kept = v;
  tells = tt;
}

input-Agrees :
    (lib : Library) (timeout : Option ℕ) (sid : ℕ) (mode : ApprovalMode) (event : Hook)
    (input : ClaudeInput) (now : ℕ) (s : Store)
    → Inv s
    → Kept (handle_claude lib timeout sid mode event (Body.decoded input) now s).1
unfolding handle_claude
input-Agrees lib timeout sid mode event input now s v =
    let g =
      claude_event-Agrees lib timeout sid mode (named_hook input.hook_event_name event) input now s
        v in
    record {
      kept = g.kept;
      tells = All-append (Tells _) _ _ (bound-Tells _ sid "claude" input.session_id) g.tells;
    }

pub handle_claude-Agrees :
    (lib : Library) (timeout : Option ℕ) (sid : ℕ) (mode : ApprovalMode) (event : Hook)
    (body : Body ClaudeInput) (now : ℕ) (s : Store)
    → Inv s
    → Kept (handle_claude lib timeout sid mode event body now s).1
unfolding handle_claude
handle_claude-Agrees lib timeout sid mode event Body.unreadable now s v = record {
  kept = v;
  tells = tt;
}
handle_claude-Agrees lib timeout sid mode event Body.malformed now s v = record {
  kept = v;
  tells = tt;
}
handle_claude-Agrees lib timeout sid mode event Body.empty now s v =
    input-Agrees lib timeout sid mode event no_input now s v
handle_claude-Agrees lib timeout sid mode event (Body.decoded input) now s v =
    input-Agrees lib timeout sid mode event input now s v

pub permission_end-Agrees :
    (key : String) (o : Outcome) (now : ℕ) (s : Store) → Inv s → Kept (permission_end key o now s).1
unfolding permission_end
permission_end-Agrees key (Outcome.received d) now s v = record { kept = v; tells = tt }
permission_end-Agrees key Outcome.times_out now s v =
    close_told-Agrees key ApprovalStatus.fallback "timeout" now s refl v
permission_end-Agrees key Outcome.cancelled now s v =
    close_told-Agrees key ApprovalStatus.fallback "timeout" now s refl v

pub handle_status_line-Agrees :
    (sid : ℕ) (body : Body (Option ℕ × Option ℕ)) (s : Store)
    → Inv s
    → Kept (handle_status_line sid body s).1
unfolding handle_status_line
handle_status_line-Agrees sid Body.unreadable s v = record { kept = v; tells = tt }
handle_status_line-Agrees sid Body.malformed s v = record { kept = v; tells = tt }
handle_status_line-Agrees sid Body.empty s v = record { kept = v; tells = tt }
handle_status_line-Agrees sid (Body.decoded (cost, used)) s v = record {
  kept = v;
  tells = (tt, tt);
}
