-- ===== src/Session/Life/Start.antt =====
-- internal/session/session.go: `NewSID`, `Start`, `Adopt` and `start`. What the machine answers (directories, shells,
-- tmux, the new process) is the record Host; a random word is a number below 2 ^ 32.
pub mod Starts
use terminal_x.Common.{
  ℕ, zero, suc, ◌+◌, ◌*◌, ◌%◌, ◌^◌, ℤ, pos, negsuc, Bool, true, false, not, ◌&&◌, String, Option,
  none, some, List, [], ◌∷◌, nat_beq, if◌then◌else◌, replicate, string_key, ◌==◌,
}
use terminal_x.Proto.Messages.{
  SessionState, NeedKind, Source, Confidence, ApprovalMode, Tool, SessionInfo,
}
use terminal_x.Session.Ring.{Ring, new, write}
use terminal_x.Session.Heuristic.{HeurState}
use terminal_x.Session.Cmdline.{ShellKind, ToolSpec}
use terminal_x.Session.Life.{Session}

-- The words that `rand.Read` gives, until one is not 0 in its low 31 bits.
unfoldable pub new_sid : List ℕ → Option ℕ
new_sid [] = none
new_sid (w ∷ ws) =
    let rest = new_sid ws in let sid = w % 2 ^ 31 in if nat_beq sid 0 then rest else some sid

pub record Options : Type 0 where
  pub sid : ℕ
  pub shell : String
  pub cwd : String
  pub tool : ToolSpec
  pub name : String
  pub preset : String
  pub approval_mode : ApprovalMode
  pub cols : ℕ
  pub rows : ℕ
  pub persist : Bool
  pub persist_conf : String
  pub ring_size : ℤ
  pub batch_interval : ℤ

pub record Host : Type 0 where
  pub random : ℕ
  pub is_dir : String → Bool
  pub default_cwd : String
  pub shell_of : String → Option (String × ShellKind)
  pub tmux_available : Bool
  pub tmux_has : Bool
  pub tmux_capture : List ℕ
  pub spawned : Option ℕ

abbrev positive_or : ℤ → ℕ → ℤ
positive_or (negsuc _) d = pos d
positive_or (pos zero) d = pos d
positive_or (pos (suc n)) d = pos (suc n)

abbrev nonzero_or : ℕ → ℕ → ℕ
nonzero_or n d = if nat_beq n 0 then d else n

abbrev tool_or_shell : Tool → Tool
tool_or_shell Tool.unset = Tool.shell
tool_or_shell t = t

abbrev or_notify : ApprovalMode → ApprovalMode
or_notify ApprovalMode.unset = ApprovalMode.notify
or_notify m = m

-- The defaults, with the random id.
unfoldable pub with_defaults : Options → ℕ → Options
with_defaults o random = record o {
  sid = nonzero_or o.sid random;
  ring_size = positive_or o.ring_size (4 * 2 ^ 20);
  batch_interval = positive_or o.batch_interval (12 * 10 ^ 6);
  cols = nonzero_or o.cols 120;
  rows = nonzero_or o.rows 36;
  tool = record o.tool { tool = tool_or_shell o.tool.tool };
  approval_mode = or_notify o.approval_mode;
}

pub data StartError : Type 0 where
  bad_cwd bad_shell adopt_without_persist no_tmux session_gone spawn_failed : StartError

pub data Start : Type 0 where
  started : Session → Ring → Start
  refused : StartError → Start
  panics : Start

-- The directory of the session, `none` if the one asked for is none.
unfoldable pub directory : Options → Host → Option String
directory o host =
    if o.cwd == "" then some host.default_cwd else if host.is_dir o.cwd then some o.cwd else none

abbrev pub persists : Options → Host → Bool
persists o host = o.persist && (host.tmux_available && not (o.persist_conf == ""))

abbrev session_of : Options → String → String → Bool → ℕ → ℕ → Session
session_of o cwd shell persist p now = record {
  info = record {
    sid = o.sid;
    device_id = "";
    name = o.name;
    tool = o.tool.tool;
    shell = shell;
    cwd = cwd;
    preset = o.preset;
    permission_mode = o.tool.permission_mode;
    approval_mode = o.approval_mode;
    state = SessionState.running;
    kind = NeedKind.unset;
    source = Source.none;
    confidence = Confidence.low;
    started_at = now;
    last_output_at = now;
    cols = o.cols;
    rows = o.rows;
    seq = 0;
    cost_usd = none;
    context_pct = none;
    exit_code = none;
    resumable = none;
    pty_alive = true;
  };
  cur = some p;
  last_output = now;
  last_structured = 0;
  attached = 0;
  heur = record { candidate_since = 0; suspect_at = 0; unknown_at = 0 };
  tool_session_id = "";
  tool_exited = false;
  killing = false;
  closed = false;
  suspended = false;
  persist = persist;
  fast_reattaches = 0;
}

-- The part of `start` that may refuse an adoption.
unfoldable pub adoption : Options → Bool → Host → Option StartError
adoption o false host = none
adoption o true host =
    if not (persists o host)
    then some StartError.no_tmux
    else if host.tmux_has
    then none
    else some StartError.session_gone

abbrev history : Bool → Host → List ℕ
history false host = []
history true host = host.tmux_capture

-- `start`; the shell's name is that of its path.
unfoldable pub start : Options → Bool → Host → ℕ → Start
start o' adopt host now =
    let o = with_defaults o' host.random in
    elim (directory o host) [
      | none ↦ Start.refused StartError.bad_cwd
      | some cwd ↦ elim (host.shell_of o.shell) [
        | none ↦ Start.refused StartError.bad_shell
        | some (shell, _) ↦ elim (new o.ring_size) [
          | none ↦ Start.panics
          | some ring ↦ elim (adoption o adopt host) [
            | some e ↦ Start.refused e
            | none ↦ elim host.spawned [
              | none ↦ Start.refused StartError.spawn_failed
              | some p ↦
                  Start.started (session_of o cwd shell (persists o host) p now)
                    (write ring (history adopt host)).0
            ]
          ]
        ]
      ]
    ]

unfoldable pub adopt : Options → Host → ℕ → Start
adopt o host now =
    if o.persist then start o true host now else Start.refused StartError.adopt_without_persist
