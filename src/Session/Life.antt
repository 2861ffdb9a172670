-- ===== src/Session/Life.antt =====
-- internal/session/session.go: a session's state under its mutex and the operations on it. A part of an
-- operation that holds the mutex is one function; what the pty, tmux and the clock answer are arguments.
-- A process generation has a number. `start` is in Life/Start.antt, the ends of processes and of the session in
-- Life/Ends.antt, the output in Output.antt.
pub mod Ends
pub mod Start
pub mod Steps
pub mod Exits
pub mod Closed
pub mod Tests
use terminal_x.Common.{
  ℕ, suc, ◌+◌, ◌-◌, ◌*◌, ◌^◌, ℤ, negsuc, Bool, true, false, not, ◌&&◌, ◌||◌, String, Option, none,
  some, List, [], ◌∷◌, ltb, nat_beq, if◌then◌else◌, string_key, ◌==◌,
}
use terminal_x.Proto.Messages.{
  SessionState, NeedKind, Source, Confidence, ApprovalMode, Tool, SessionInfo, SessionHealth,
  Resumable,
}
use terminal_x.Session.Heuristic.{HeurState, HeurInput, Verdict, VerdictKind, evaluate, quiet}
use terminal_x.Session.Heuristic.Prompt.{codes}

pub record Session : Type 0 where
  pub info : SessionInfo
  pub cur : Option ℕ
  pub last_output : ℕ
  pub last_structured : ℕ
  pub attached : ℕ
  pub heur : HeurState
  pub tool_session_id : String
  pub tool_exited : Bool
  pub killing : Bool
  pub closed : Bool
  pub suspended : Bool
  pub persist : Bool
  pub fast_reattaches : ℕ

abbrev pub is_exited : SessionState → Bool
is_exited SessionState.exited = true
is_exited _ = false

abbrev pub is_structured : Source → Bool
is_structured Source.hook = true
is_structured Source.hooks_json = true
is_structured Source.notify = true
is_structured Source.status_line = true
is_structured _ = false

unfoldable pub set_state :
    Session → SessionState → NeedKind → Source → Confidence → ℕ → Bool × Session
set_state s st kind src conf now = if is_exited s.info.state then (false, s) else (
  true,
  record s {
    info = record s.info { state = st; kind = kind; source = src; confidence = conf };
    last_structured = if is_structured src then now else s.last_structured;
  },
)

abbrev or_keep : Option ℕ → Option ℕ → Option ℕ
or_keep none old = old
or_keep (some x) old = some x

unfoldable pub set_metrics : Session → Option ℕ → Option ℕ → ℕ → Session
set_metrics s cost pct now = record s {
  info = record s.info {
    cost_usd = or_keep cost s.info.cost_usd;
    context_pct = or_keep pct s.info.context_pct;
  };
  last_structured = now;
}

unfoldable pub set_approval_mode : Session → ApprovalMode → Session
set_approval_mode s ApprovalMode.unset = s
set_approval_mode s m = record s { info = record s.info { approval_mode = m } }

unfoldable pub set_tool_session : Session → String → Session
set_tool_session s id = record s { tool_session_id = id; tool_exited = false }

unfoldable pub exit_tool : Session → Session
exit_tool s = record s { tool_exited = true }

unfoldable pub attach : Session → Session
attach s = record s { attached = suc s.attached }

unfoldable pub detach : Session → Session
detach s = record s { attached = s.attached - 1 }

abbrev pub tool_of : Session → Tool
tool_of s = if s.tool_exited then Tool.shell else s.info.tool

unfoldable pub alive : Session → Bool
alive s = s.info.pty_alive && not s.closed

abbrev pub has : {A : Type 0} → Option A → Bool
has none = false
has (some _) = true

unfoldable pub health : Session → ℕ → SessionHealth
health s seq = record {
  sid = s.info.sid;
  pty_alive = has s.cur && s.info.pty_alive;
  last_output_at = s.last_output;
  seq = seq;
}

pub data Error : Type 0 where
  exited empty_size unknown_signal in_progress pty_failed respawn_failed : Error

pub data Result (A : Type 0) : Type 0 where
  ok : A → Result A
  err : Error → Result A

unfoldable pub current : Session → Result ℕ
unfolding alive
current s = elim s.cur [
  | none ↦ Result.err Error.exited
  | some p ↦ if alive s then Result.ok p else Result.err Error.exited
]

-- `Resize` under the mutex: the generation whose pty gets the size.
unfoldable pub resize : Session → ℕ → ℕ → Result ℕ × Session
unfolding current
resize s cols rows =
    if nat_beq cols 0 || nat_beq rows 0
    then (Result.err Error.empty_size, s)
    else let s' = record s { info = record s.info { cols = cols; rows = rows } } in (current s', s')

pub data Signal : Type 0 where
  esc ctrl_c eof kill_resume : Signal
  other : String → Signal

-- What a signal is: bytes for the pty, the restart, or nothing known.
pub data Control : Type 0 where
  types : List ℕ → Control
  restarts : Control
  unknown : Control

unfoldable pub control : Signal → Control
control Signal.esc = Control.types (27 ∷ [])
control Signal.ctrl_c = Control.types (3 ∷ [])
control Signal.eof = Control.types (4 ∷ [])
control Signal.kill_resume = Control.restarts
control (Signal.other _) = Control.unknown

unfoldable pub exit_command : Session → List ℕ
exit_command s = elim (tool_of s) [
  | Tool.claude ↦ codes "/exit\r"
  | Tool.codex ↦ codes "/quit\r"
  | Tool.grok ↦ codes "/exit\r"
  | _ ↦ codes "exit\r"
]

abbrev pub tool_text : Tool → String
tool_text Tool.unset = ""
tool_text Tool.claude = "claude"
tool_text Tool.codex = "codex"
tool_text Tool.grok = "grok"
tool_text Tool.shell = "shell"
tool_text (Tool.other t) = t

-- `Heuristic`; `line` is the last line of the last 4 KiB of output.
unfoldable pub heuristic : Session → List ℕ → ℕ → Verdict × Session
heuristic s line now =
    if not s.info.pty_alive || (s.closed || s.tool_exited)
    then (quiet VerdictKind.none, s)
    else let input : HeurInput = record {
      tool = tool_text s.info.tool;
      last_output = s.last_output;
      last_structured = s.last_structured;
      last_line = line;
    } in
      let (v, h) = evaluate input s.heur now in (v, record s { heur = h })
