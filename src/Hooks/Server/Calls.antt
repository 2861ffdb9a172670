-- ===== src/Hooks/Server/Calls.antt =====
-- internal/hooks/server.go: the calls that a handler makes, of the store and of the Events methods, and what
-- it answers. A call of an Events method is a value, in the order of the calls.
use terminal_x.Common.{
  ℕ, ◌*◌, ◌^◌, Bool, true, false, String, Option, none, some, List, [], ◌∷◌, ◌++◌, if◌then◌else◌,
  string_key, ◌==◌,
}
use terminal_x.Proto.Messages.{
  SessionState, NeedKind, Source, Confidence, ApprovalMode, ApprovalLevel, ApprovalStatus, Approval,
}
use terminal_x.Hooks.Approvals.{Store, Choice, add, close, close_session}
use terminal_x.Hooks.Server.Inputs.{Library, Hook, Notification, ClaudeInput, approval_key, summary}

pub data Event : Type 0 where
  session_state : ℕ → SessionState → NeedKind → Source → Confidence → Event
  approval_new : Approval → Event
  approval_closed : Approval → String → Event
  session_updated : ℕ → Option ℕ → Option ℕ → Event
  tool_session : ℕ → String → String → Event
  tool_exited : ℕ → Event

-- What is written: an error, `{}`, a verdict, the status 204, nothing, or the health check's `ok`.
pub data Response : Type 0 where
  unauthorized bad_request not_found : Response
  empty_object : Response
  verdict : Choice → String → Response
  no_content : Response
  silent : Response
  healthy : Response

-- An answer, or a wait for the approval of a key on a channel.
pub data Reply : Type 0 where
  answers : Response → Reply
  waits : String → ℕ → Reply

-- A body as it is read: `io.ReadAll` fails, nothing is there, `json.Unmarshal` fails, or it is decoded.
pub data Body {ℓ} (A : Type ℓ) : Type ℓ where
  unreadable empty malformed : Body A
  decoded : A → Body A

abbrev pub Step : Type 0
Step = List Event × Store

abbrev pub default_timeout : ℕ
default_timeout = 3600 * 10 ^ 9

abbrev pub timeout_of : Option ℕ → ℕ
timeout_of none = default_timeout
timeout_of (some t) = t

abbrev pub state : ℕ → Source → SessionState → NeedKind → Event
state sid source st kind = Event.session_state sid st kind source Confidence.high

abbrev pub told_closed : String → List Approval → List Event
told_closed by [] = []
told_closed by (a ∷ as') = Event.approval_closed a by ∷ told_closed by as'

abbrev pub told_one : String → Option Approval → List Event
told_one by none = []
told_one by (some a) = Event.approval_closed a by ∷ []

abbrev pub told_new : Bool → Approval → List Event
told_new true a = []
told_new false a = Event.approval_new a ∷ []

unfoldable pub close_told : String → ApprovalStatus → String → ℕ → Store → Step
close_told key status by now s =
    let (closed, s') = close s key status by now in (told_one by closed, s')

-- `closeStale`, and the loop of SessionEnd
unfoldable pub close_stale : ℕ → ℕ → Store → Step
close_stale sid now s =
    let (closed, s') = close_session s sid ApprovalStatus.closed_local "local" now in
    (told_closed "local" closed, s')

unfoldable pub add_told : Approval → ℕ → Store → Step
add_told a now s = let (stored, dup, s') = add s a now in (told_new dup stored, s')

abbrev pub bound : ℕ → String → String → List Event
bound sid agent id = if id == "" then [] else Event.tool_session sid agent id ∷ []

abbrev pub blank : Approval
blank = record {
  key = "";
  sid = 0;
  device_id = "";
  agent = "";
  tool = "";
  summary = "";
  input = "";
  cwd = "";
  level = ApprovalLevel.keys;
  mode = ApprovalMode.unset;
  created_at = 0;
  hook_timeout_at = none;
  status = ApprovalStatus.unset;
  decided_by = "";
  decided_at = none;
}

-- The approval of a permission request, at a level.
abbrev pub requested :
    Library → String → ApprovalLevel → ℕ → ApprovalMode → ClaudeInput → ℕ → Approval
requested lib agent level sid mode input now = record blank {
  key = approval_key lib input.session_id input.tool_name input.tool_input;
  sid = sid;
  agent = agent;
  tool = input.tool_name;
  summary = summary lib input.tool_name input.tool_input;
  input = input.tool_input;
  cwd = input.cwd;
  level = level;
  mode = mode;
  created_at = now;
}

abbrev pub before : List Event → Step → Step
before told (later, s) = (told ++ later, s)

abbrev pub answered : Step → Reply × Step
answered x = (Reply.answers Response.empty_object, x)

-- The step, and then a state of the session.
abbrev pub then_state : ℕ → Source → SessionState → Step → Step
then_state sid source st (told, s) = (told ++ state sid source st NeedKind.unset ∷ [], s)

abbrev pub no_input : ClaudeInput
no_input = record {
  session_id = "";
  cwd = "";
  hook_event_name = Hook.unset;
  tool_name = "";
  tool_input = "";
  notification_type = Notification.other "";
  title = "";
  message = "";
}
