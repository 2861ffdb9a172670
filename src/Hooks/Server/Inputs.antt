-- ===== src/Hooks/Server/Inputs.antt =====
-- What the handlers read of the hook inputs (ClaudeInput in internal/hooks/claude.go), and the key and the
-- summary of an approval (internal/hooks/approvals.go). A JSON value is its text.
use Prim.Native.String.{◌++◌ as str_append}
use terminal_x.Common.{
  ◌||◌, String, Option, none, some, List, [], ◌∷◌, if◌then◌else◌, string_key, ◌==◌,
}

pub data Hook : Type 0 where
  unset session_start user_prompt_submit pre_tool_use permission_request post_tool_use : Hook
  notification stop stop_failure session_end : Hook
  other : String → Hook

pub data Notification : Type 0 where
  permission_prompt idle_prompt agent_needs_input elicitation_dialog elicitation_url_dialog :
      Notification
  quota_auto_resume_fired quota_auto_resume_stale quota_auto_resume_disabled : Notification
  other : String → Notification

pub record ClaudeInput : Type 0 where
  pub session_id : String
  pub cwd : String
  pub hook_event_name : Hook
  pub tool_name : String
  pub tool_input : String
  pub notification_type : Notification
  pub title : String
  pub message : String

-- Code that is not in the repository: sixteen hex digits of a SHA-256, the canonical JSON text, the member
-- of a JSON object that is a string, and `strconv.Quote`.
pub record Library : Type 0 where
  pub hash : String → String
  pub canonical : String → String
  pub string_member : String → String → Option String
  pub quoted : String → String

abbrev pub approval_key : Library → String → String → String → String
approval_key lib session tool input =
    lib.hash (str_append session (str_append tool (lib.canonical input)))

abbrev non_empty : Option String → Option String
non_empty none = none
non_empty (some s) = if s == "" then none else some s

abbrev or_else : Option String → String → String
or_else none s = s
or_else (some t) s = t

-- The member that a tool's own case looks at.
abbrev own_member : String → Option String
own_member tool =
    if tool == "Bash"
    then some "command"
    else if tool == "Write"
        || tool == "Edit"
        || tool == "Read"
        || tool == "MultiEdit"
        || tool == "NotebookEdit"
    then some "file_path"
    else none

-- The loop over the members of any tool.
generic_summary : Library → String → String → List String → String
generic_summary lib tool input [] = tool
generic_summary lib tool input (k ∷ ks) =
    let rest = generic_summary lib tool input ks in
    elim (non_empty (lib.string_member k input)) [
      | none ↦ rest
      | some s ↦ str_append tool (str_append ": " s)
    ]

abbrev own_summary : Library → String → Option String → Option String
own_summary lib input none = none
own_summary lib input (some k) = non_empty (lib.string_member k input)

unfoldable pub summary : Library → String → String → String
unfolding generic_summary
summary lib tool input = or_else (own_summary lib input (own_member tool)) (
    generic_summary lib tool input
      ("command" ∷ "file_path" ∷ "path" ∷ "url" ∷ "pattern" ∷ "query" ∷ []))

-- The event that the input names, or else the one of the path.
abbrev pub named_hook : Hook → Hook → Hook
named_hook Hook.unset event = event
named_hook h event = h

abbrev pub notification_text : Notification → String
notification_text Notification.permission_prompt = "permission_prompt"
notification_text Notification.idle_prompt = "idle_prompt"
notification_text Notification.agent_needs_input = "agent_needs_input"
notification_text Notification.elicitation_dialog = "elicitation_dialog"
notification_text Notification.elicitation_url_dialog = "elicitation_url_dialog"
notification_text Notification.quota_auto_resume_fired = "quota_auto_resume_fired"
notification_text Notification.quota_auto_resume_stale = "quota_auto_resume_stale"
notification_text Notification.quota_auto_resume_disabled = "quota_auto_resume_disabled"
notification_text (Notification.other s) = s

abbrev pub notification_summary : ClaudeInput → String
notification_summary input =
    if input.message == ""
    then if input.title == "" then notification_text input.notification_type else input.title
    else input.message

abbrev pub notification_key : Library → ClaudeInput → String
notification_key lib input =
    approval_key lib input.session_id
      (str_append "notification:" (notification_text input.notification_type))
      (lib.quoted (notification_summary input))

abbrev pub decided_text : String → String
decided_text by = str_append "decided via terminalX by " by
