-- ===== src/Agent/Persist.antt =====
-- internal/agent/persist.go: what an agent leaves for the next one. The directory of a session is an entry by its id,
-- with the descriptor that reads back from its meta.json, or `none` for one that does not; a write that fails is left out.
pub mod Adoption
use terminal_x.Common.{
  ℕ, ◌≡◌, ◌≢◌, refl, ◌∙◌, pos, Bool, true, false, not, ◌||◌, ◌&&◌, ap, String, Option, none, some,
  List, [], ◌∷◌, nat_beq_iff, if◌then◌else◌, nat_key, string_key, ◌==◌, arith, Option-cases,
  Bool-cases, inl, inr, nat_beq,
}
use terminal_x.Common.Maps.{lookup, insert, delete, lookup-insert, lookup-delete, IsMap}
use terminal_x.Proto.Messages.{ApprovalMode, Tool}
use terminal_x.Session.Cmdline.{ShellKind}
use terminal_x.Session.Life.{Session, set_tool_session}
use terminal_x.Session.Life.Ends as ends
use terminal_x.Session.Life.Start.{Options, Host, Start, adopt}
use terminal_x.Session.Ring.{Ring}
use terminal_x.Agent.{Agent, Live}
use terminal_x.Agent.Opening.{live}

pub record Meta : Type 0 where
  pub sid : ℕ
  pub name : String
  pub tool : Tool
  pub shell : String
  pub cwd : String
  pub preset : String
  pub approval_mode : ApprovalMode
  pub permission_mode : String
  pub extra : List String
  pub settings_path : String
  pub codex_notify : List String
  pub tool_session_id : String
  pub started_at : ℕ
  pub cols : ℕ
  pub rows : ℕ

abbrev pub Dirs : Type 0
Dirs = List (ℕ × Option Meta)

unfoldable pub write_meta : Meta → Dirs → Dirs
write_meta m dirs = insert m.sid (some m) dirs

-- `none` for a file that is missing or does not parse.
unfoldable pub read_meta : ℕ → Dirs → Option Meta
read_meta sid dirs = elim (lookup sid dirs) [
  | none ↦ none
  | some none ↦ none
  | some (some m) ↦ some (record m { sid = sid })
]

-- `persist` is whether the agent keeps its sessions in tmux.
unfoldable pub note_tool_session : Bool → ℕ → String → Dirs → Dirs
note_tool_session persist sid id dirs =
    if id == "" || not persist then dirs else elim (read_meta sid dirs) [
      | none ↦ dirs
      | some m ↦
          if m.tool_session_id == id
          then dirs
          else write_meta (record m { tool_session_id = id }) dirs
    ]

abbrev or_notify : ApprovalMode → ApprovalMode
or_notify ApprovalMode.unset = ApprovalMode.notify
or_notify m = m

abbrev pub adopt_options : String → Meta → Options
adopt_options conf m = record {
  sid = m.sid;
  shell = m.shell;
  cwd = m.cwd;
  tool = record {
    tool = m.tool;
    name = m.name;
    permission_mode = m.permission_mode;
    resume = "";
    extra = m.extra;
    settings_path = m.settings_path;
    codex_notify = m.codex_notify;
    shell_kind = ShellKind.other "";
  };
  name = m.name;
  preset = m.preset;
  approval_mode = or_notify m.approval_mode;
  cols = m.cols;
  rows = m.rows;
  persist = true;
  persist_conf = conf;
  ring_size = pos 0;
  batch_interval = pos 0;
}

-- The session with the id that its tool goes by.
abbrev pub resumed : Meta → Live → Live
resumed m l =
    if m.tool_session_id == ""
    then l
    else record l { session = set_tool_session l.session m.tool_session_id }

abbrev pub adopted : Meta → Start → Option Live
adopted m (Start.started s ring) = some (resumed m (live s ring))
adopted m (Start.refused _) = none
adopted m Start.panics = none

-- `adopt`, with what the machine answers about the session; `none` is an error, which is logged. A preset that
-- is gone only empties the environment.
unfoldable pub adopt_session : String → Meta → Host → ℕ → Option Live
adopt_session conf m host now = adopted m (adopt (adopt_options conf m) host now)

abbrev pub is_alive : ℕ → List ℕ → Bool
is_alive sid [] = false
is_alive sid (a ∷ alive) = nat_beq a sid || is_alive sid alive

-- What the next agent makes of the directory of a session: it is removed if tmux has no such session, and else the
-- session is adopted, if its descriptor reads.
abbrev pub recovered : List ℕ → String → (ℕ → Host) → ℕ → Dirs → ℕ → Option Live
recovered alive conf host now dirs sid =
    if is_alive sid alive
    then elim (read_meta sid dirs) [ none ↦ none | some m ↦ adopt_session conf m (host sid) now ]
    else none

abbrev pub put : ℕ → Option Live → Agent → Agent
put sid none a = a
put sid (some l) a = record a { sessions = insert sid l a.sessions }

abbrev pub tidied : List ℕ → ℕ → Dirs → Dirs
tidied alive sid dirs = if is_alive sid alive then dirs else delete sid dirs

-- The loop over the directories that were there; `host` is what the machine answers about a session.
unfoldable pub adopt_each : List ℕ → String → (ℕ → Host) → ℕ → Dirs → Dirs → Agent → Dirs × Agent
adopt_each alive conf host now [] dirs a = (dirs, a)
adopt_each alive conf host now ((sid, _) ∷ entries) dirs a =
    adopt_each alive conf host now entries (tidied alive sid dirs)
      (put sid (recovered alive conf host now dirs sid) a)

unfoldable pub adopt_sessions :
    Bool → List ℕ → String → (ℕ → Host) → ℕ → Dirs → Agent → Dirs × Agent
adopt_sessions persist alive conf host now dirs a =
    if persist then adopt_each alive conf host now dirs dirs a else (dirs, a)

unfoldable pub suspend_each : List (ℕ × Live) → List (Option ℕ × Session)
suspend_each [] = []
suspend_each ((_, l) ∷ m) = ends.suspend l.session ∷ suspend_each m

-- The processes that are let go, with the suspended sessions.
unfoldable pub suspend_all : Agent → List (Option ℕ × Session) × Agent
suspend_all a = (suspend_each a.sessions, record a { sessions = [] })
