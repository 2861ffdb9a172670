-- ===== src/Hooks/Server/Told/Codex.antt =====
-- What the handlers of Codex tell.
use terminal_x.Common.{ℕ, inl, inr, refl, ◌||◌, String, All-append, Bool-cases, string_key, ◌==◌}
use terminal_x.Proto.Messages.{ApprovalStatus, ApprovalMode}
use terminal_x.Hooks.Approvals.{Store}
use terminal_x.Hooks.Approvals.Invariant.{Inv}
use terminal_x.Hooks.Server.Inputs.{Library, Hook, ClaudeInput, named_hook}
use terminal_x.Hooks.Server.Calls.{Body, no_input}
use terminal_x.Hooks.Server.Codex.{codex_event, handle_codex_hook, handle_codex_notify}
-- An approval that is announced is in the store as it is told, and pending; one whose end is told is in
use terminal_x.Hooks.Server.Told.{
  Tells, Kept, bound-Tells, after, before_one, close_told-Agrees, close_stale-Agrees,
  add_told-Agrees,
}

codex_event-Agrees :
    (lib : Library) (sid : ℕ) (mode : ApprovalMode) (h : Hook) (input : ClaudeInput) (now : ℕ)
    (s : Store)
    → Inv s
    → Kept (codex_event lib sid mode h input now s)
unfolding codex_event
codex_event-Agrees lib sid mode Hook.session_start input now s v = record {
  kept = v;
  tells = All-append (Tells s) _ _ (bound-Tells s sid "codex" input.session_id) (tt, tt);
}
codex_event-Agrees lib sid mode Hook.user_prompt_submit input now s v = record {
  kept = v;
  tells = (tt, tt);
}
codex_event-Agrees lib sid mode Hook.pre_tool_use input now s v = record {
  kept = v;
  tells = (tt, tt);
}
codex_event-Agrees lib sid mode Hook.permission_request input now s v =
    before_one _ _ _ tt (add_told-Agrees _ now s v)
codex_event-Agrees lib sid mode Hook.post_tool_use input now s v =
    after _ _ _ (tt, tt) (close_told-Agrees _ ApprovalStatus.closed_local "local" now s refl v)
codex_event-Agrees lib sid mode Hook.stop input now s v = record { kept = v; tells = (tt, tt) }
codex_event-Agrees lib sid mode Hook.session_end input now s v =
    after _ _ _ (tt, tt) (after _ _ _ (tt, tt) (close_stale-Agrees sid now s v))
codex_event-Agrees lib sid mode Hook.unset input now s v = record { kept = v; tells = tt }
codex_event-Agrees lib sid mode Hook.notification input now s v = record { kept = v; tells = tt }
codex_event-Agrees lib sid mode Hook.stop_failure input now s v = record { kept = v; tells = tt }
codex_event-Agrees lib sid mode (Hook.other _) input now s v = record { kept = v; tells = tt }

pub handle_codex_hook-Agrees :
    (lib : Library) (sid : ℕ) (mode : ApprovalMode) (event : Hook) (body : Body ClaudeInput)
    (now : ℕ) (s : Store)
    → Inv s
    → Kept (handle_codex_hook lib sid mode event body now s).1
unfolding handle_codex_hook
handle_codex_hook-Agrees lib sid mode event Body.unreadable now s v = record {
  kept = v;
  tells = tt;
}
handle_codex_hook-Agrees lib sid mode event Body.malformed now s v = record { kept = v; tells = tt }
handle_codex_hook-Agrees lib sid mode event Body.empty now s v =
    codex_event-Agrees lib sid mode (named_hook Hook.unset event) no_input now s v
handle_codex_hook-Agrees lib sid mode event (Body.decoded input) now s v =
    codex_event-Agrees lib sid mode (named_hook input.hook_event_name event) input now s v

pub handle_codex_notify-Agrees :
    (sid : ℕ) (body : Body (String × String)) (s : Store)
    → Inv s
    → Kept (handle_codex_notify sid body s).1
unfolding handle_codex_notify
handle_codex_notify-Agrees sid Body.unreadable s v = record { kept = v; tells = tt }
handle_codex_notify-Agrees sid Body.malformed s v = record { kept = v; tells = tt }
handle_codex_notify-Agrees sid Body.empty s v = record { kept = v; tells = tt }
handle_codex_notify-Agrees sid (Body.decoded (kind, thread)) s v = record {
  kept = v;
  tells =
      All-append (Tells s) _ _ (bound-Tells s sid "codex" thread)
        (elim (Bool-cases (kind == "agent-turn-complete" || kind == "")) [
          | inl e ↦ rw e (tt, tt)
          | inr e ↦ rw e tt
        ]);
}
