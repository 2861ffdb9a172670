-- ===== src/Hooks/Server/Tests.antt =====
-- An endpoint with one session, its requests, and the properties at them.
use terminal_x.Common.{◌+◌, ◌*◌, ◌^◌, ◌≡◌, ◌⊎◌, inl, refl, none, some, [], ◌∷◌}
use terminal_x.Common.Maps.{lookup, insert}
use terminal_x.Proto.Messages.{Approval, ApprovalLevel, ApprovalMode, ApprovalStatus}
use terminal_x.Session.Heuristic.Prompt.{codes}
use terminal_x.Hooks.Approvals.{
  Store, Pending, Choice, Decision, new_store, add, decide, receive, wait, get, pending_item, mark,
}
use terminal_x.Hooks.Approvals.Invariant.{Inv, new_store-Inv}
use terminal_x.Hooks.Server.{
  handle_claude, claude_event, permission_request, permission_end, Outcome,
}
use terminal_x.Hooks.Server.Inputs.{Library, Hook, Notification, ClaudeInput, summary, decided_text}
use terminal_x.Hooks.Server.Calls.{Event, Response, Reply, Body}
use terminal_x.Hooks.Server.Told.{Agrees}
use terminal_x.Hooks.Server.Told.Claude.{handle_claude-Agrees}
use terminal_x.Hooks.Server.Serve.{
  Server, Call, Request, Route, serve, guarded, authorized, trim_prefix, parse_sid, mode_of, routed,
  serve-Agrees,
}
use terminal_x.Hooks.Server.Ended.{Ended, claude_event-Ended}
use terminal_x.Hooks.Server.Waiting.{decide-verdict, timed_out}

abbrev lib : Library
lib = record {
  hash = λ s. s;
  canonical = λ s. s;
  string_member = λ k input. some input;
  quoted = λ s. s;
}

abbrev pub endpoint : Server
endpoint = record {
  token = codes "secret";
  session = some (λ sid. some ApprovalMode.remote_first);
  timeout = none;
  library = lib;
}

abbrev bash : ClaudeInput
bash = record {
  session_id = "s";
  cwd = "/";
  hook_event_name = Hook.unset;
  tool_name = "Bash";
  tool_input = "ls";
  notification_type = Notification.other "";
  title = "";
  message = "";
}

abbrev call : Call
call = record {
  authorization = codes "Bearer secret";
  sid = codes "7";
  route = Route.claude Hook.permission_request (Body.decoded bash);
}

abbrev pub asks : Request
asks = Request.hook call

serve-Agrees_example :
    Agrees (serve endpoint asks 5 new_store).1.0 (serve endpoint asks 5 new_store).1.1
serve-Agrees_example = serve-Agrees endpoint asks 5 new_store new_store-Inv

-- The request waits on the first channel, under the key of its call.
asks-waits : (serve endpoint asks 5 new_store).0 ≡ Reply.waits "sBashls" 0
unfolding serve guarded authorized trim_prefix parse_sid mode_of routed handle_claude claude_event
    permission_request add new_store lookup insert wait summary
asks-waits = refl

bash-waits :
    (handle_claude lib none 7 ApprovalMode.remote_first Hook.permission_request
      (Body.decoded bash)
      5
      new_store).0
    ≡ Reply.waits "sBashls" 0
unfolding handle_claude claude_event permission_request add new_store lookup insert wait summary
bash-waits = refl

abbrev waiting : Store
waiting =
    (handle_claude lib none 7 ApprovalMode.remote_first Hook.permission_request (Body.decoded bash)
      5 new_store).1.1

decide-verdict_example :
    (ApprovalMode.remote_first ≡ ApprovalMode.remote_first)
    × (receive waiting 0 ≡ none)
    × ((d : Decision) × (s3 : Store) × (receive (decide waiting "sBashls" Choice.allow "c1" 9).1 0
          ≡ some (d, s3))
        × (receive s3 0 ≡ none)
        × (permission_end "sBashls" (Outcome.received d) 9 s3
            ≡ (Response.verdict Choice.allow (decided_text "c1"), ([], s3))))
decide-verdict_example =
    decide-verdict lib none 7 ApprovalMode.remote_first Hook.permission_request bash 5 new_store
      "sBashls" 0 Choice.allow "c1" 9 new_store-Inv bash-waits

waiting-Inv : Inv waiting
waiting-Inv =
    (handle_claude-Agrees lib none 7 ApprovalMode.remote_first Hook.permission_request
      (Body.decoded bash) 5 new_store new_store-Inv).kept

timed_out_example :
    let (reply, (told, s')) = permission_end "sBashls" Outcome.times_out 9 waiting in
    ((reply ≡ Response.empty_object) ⊎ (reply ≡ Response.silent))
    × (pending_item s' "sBashls" ≡ none)
    × (pending_item waiting "sBashls" ≡ none → (told ≡ []) × (s' ≡ waiting))
    × ((p : Pending)
        → pending_item waiting "sBashls" ≡ some p
        → told
          ≡ Event.approval_closed (mark ApprovalStatus.fallback "timeout" 9 p.a) "timeout" ∷ [])
timed_out_example = timed_out "sBashls" Outcome.times_out 9 waiting (inl refl)

abbrev asked : Approval
asked =
    (add new_store
      (record {
        key = "sBashls";
        sid = 7;
        device_id = "";
        agent = "claude";
        tool = "Bash";
        summary = "ls";
        input = "ls";
        cwd = "/";
        level = ApprovalLevel.hook;
        mode = ApprovalMode.remote_first;
        created_at = 5;
        hook_timeout_at = some (5 + 3600 * 10 ^ 9);
        status = ApprovalStatus.unset;
        decided_by = "";
        decided_at = none;
      })
      5).0

waiting_for : get waiting "sBashls" ≡ some asked
unfolding handle_claude claude_event permission_request add new_store lookup insert wait summary get
waiting_for = refl

claude_event-Ended_example :
    ((claude_event lib none 7 ApprovalMode.remote_first Hook.stop bash 9 waiting).0
      ≡ Reply.answers Response.empty_object)
    × Ended 7 9 "sBashls" asked
        (claude_event lib none 7 ApprovalMode.remote_first Hook.stop bash 9 waiting).1
claude_event-Ended_example =
    claude_event-Ended lib none 7 ApprovalMode.remote_first Hook.stop bash 9 waiting "sBashls" asked
      refl waiting-Inv waiting_for
