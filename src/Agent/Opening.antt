-- ===== src/Agent/Opening.antt =====
-- internal/agent/agent.go: `openSession`, and `handleOpen` of handle.go. What it writes to files is left out; the
-- paths and the texts of numbers come from the record Setup.
use mathlib.Core.Path.{subst}
use terminal_x.Common.{
  ℕ, ◌≡◌, ◌≢◌, refl, inl, inr, pos, Bool, true, false, String, Option, none, some, List, [], ◌∷◌,
  nat_beq_iff, if◌then◌else◌, nat_key, string_key, ◌==◌, arith, Option-cases,
}
use terminal_x.Common.Maps.{lookup, insert, lookup-insert}
use terminal_x.Proto.Messages.{ApprovalMode, Tool}
use terminal_x.Proto.Envelope.{Msg, MsgType, OpenRequest, blank}
use terminal_x.Session.Cmdline.{ShellKind}
use terminal_x.Session.Life.{Session}
use terminal_x.Session.Life.Start.{Options, Host, Start, StartError, start}
use terminal_x.Session.Ring.{Ring}
use terminal_x.Agent.{Agent, Live, Effect, Step, reply_error, info_of}
use terminal_x.Agent.Presets.{Resolver, resolve}

pub record Setup : Type 0 where
  pub resolver : Resolver
  pub trim : String → String
  pub exe : String
  pub hook_token : String
  pub port : String
  pub decimal : ℕ → String
  pub settings_path : ℕ → Option String
  pub default_shell : String
  pub persist : Bool
  pub tmux_conf : String

pub data OpenError : Type 0 where
  unknown_tool bad_preset no_settings no_id start_panics : OpenError
  not_started : StartError → OpenError

pub data Opened : Type 0 where
  opened : ℕ → Live → Opened
  failed : OpenError → Opened

-- The tool, if it is one of the four.
abbrev pub known_tool : Tool → Option Tool
known_tool Tool.unset = some Tool.shell
known_tool (Tool.other _) = none
known_tool t = some t

abbrev mode_or_notify : ApprovalMode → ApprovalMode
mode_or_notify ApprovalMode.unset = ApprovalMode.notify
mode_or_notify m = m

-- The first of the ids drawn that no session has.
unfoldable pub free_sid : Agent → List ℕ → Option ℕ
free_sid a [] = none
free_sid a (sid ∷ sids) =
    let rest = free_sid a sids in elim (lookup sid a.sessions) [ none ↦ some sid | some _ ↦ rest ]

abbrev settings_of : Setup → Tool → ℕ → Option String
settings_of c Tool.claude sid = c.settings_path sid
settings_of c _ sid = some ""

abbrev notify_of : Setup → Tool → ℕ → List String
notify_of c Tool.codex sid =
    c.exe ∷ "notify" ∷ "--sid" ∷ c.decimal sid ∷ "--port" ∷ c.port ∷ "--token" ∷ c.hook_token ∷ []
notify_of c _ sid = []

abbrev options_of : Setup → OpenRequest → Tool → ℕ → String → Options
options_of c o tool sid settings = record {
  sid = sid;
  shell = if o.shell == "" then c.default_shell else o.shell;
  cwd = o.cwd;
  tool = record {
    tool = tool;
    name = o.name;
    permission_mode = o.permission_mode;
    resume = o.resume;
    extra = o.extra;
    settings_path = settings;
    codex_notify = notify_of c tool sid;
    shell_kind = ShellKind.other "";
  };
  name = o.name;
  preset = o.preset;
  approval_mode = mode_or_notify o.approval_mode;
  cols = o.cols;
  rows = o.rows;
  persist = c.persist;
  persist_conf = c.tmux_conf;
  ring_size = pos 0;
  batch_interval = pos 0;
}

abbrev pub live : Session → Ring → Live
live s r = record {
  session = s;
  output = record { ring = r; pending = []; pending_seq = 0; timer = false; listening = true };
}

abbrev begun : ℕ → Start → Agent → Opened × Agent
begun sid (Start.refused e) a = (Opened.failed (OpenError.not_started e), a)
begun sid Start.panics a = (Opened.failed OpenError.start_panics, a)
begun sid (Start.started s r) a =
    (Opened.opened sid (live s r), record a { sessions = insert sid (live s r) a.sessions })

unfoldable pub open_session : Setup → OpenRequest → List ℕ → Host → ℕ → Agent → Opened × Agent
open_session c o sids host now a = elim (known_tool o.tool) [
  | none ↦ (Opened.failed OpenError.unknown_tool, a)
  | some tool ↦ elim (resolve c.trim c.resolver o.preset) [
    | none ↦ (Opened.failed OpenError.bad_preset, a)
    | some _ ↦ elim (free_sid a sids) [
      | none ↦ (Opened.failed OpenError.no_id, a)
      | some sid ↦ elim (settings_of c tool sid) [
        | none ↦ (Opened.failed OpenError.no_settings, a)
        | some path ↦ begun sid (start (options_of c o tool sid path) false host now) a
      ]
    ]
  ]
]

-- What `handleOpen` answers, with the texts of the errors.
abbrev answer_open : (OpenError → String) → Msg → Opened → List Effect
answer_open text m (Opened.failed e) = reply_error m (text e) ∷ []
answer_open text m (Opened.opened sid l) =
    Effect.sends (record (blank MsgType.session_opened) {
      req_id = m.req_id;
      client_id = m.client_id;
      sid = l.session.info.sid;
      session = some (info_of l);
    })
    ∷ []

unfoldable pub handle_open : (OpenError → String) → Setup → Msg → List ℕ → Host → ℕ → Agent → Step
handle_open text c m sids host now a = elim m.open_req [
  | none ↦ (reply_error m "session.open without open" ∷ [], a)
  | some o ↦ let (r, a') = open_session c o sids host now a in (answer_open text m r, a')
]

free_sid-free :
    (a : Agent) (sids : List ℕ) (sid : ℕ)
    → free_sid a sids ≡ some sid
    → lookup sid a.sessions ≡ none
unfolding free_sid
free_sid-free a [] sid e = cc
free_sid-free a (x ∷ sids) sid e = elim (Option-cases (lookup x a.sessions)) [
  | inl n ↦ subst (λ y. lookup y a.sessions ≡ none) (ground (arith, rw (n, free_sid) at e)) n
  | inr (l, h) ↦ free_sid-free a sids sid (rw (h, free_sid) at e)
]

-- What a session that is opened leaves of the others, and what a failure leaves.
abbrev pub Opens : Agent → Opened × Agent → Type 0
Opens a (Opened.failed _, a') = a' ≡ a
Opens a (Opened.opened sid l, a') =
    (lookup sid a.sessions ≡ none)
    × (lookup sid a'.sessions ≡ some l)
    × ((j : ℕ) → j ≢ sid → lookup j a'.sessions ≡ lookup j a.sessions)

begun-Opens :
    (a : Agent) (sid : ℕ) (x : Start) → lookup sid a.sessions ≡ none → Opens a (begun sid x a)
begun-Opens a sid (Start.refused e) h = refl
begun-Opens a sid Start.panics h = refl
begun-Opens a sid (Start.started s r) h = (
  h,
  ground (arith, nat_beq_iff sid sid, lookup-insert sid sid (live s r) a.sessions),
  λ j ne. ground (arith, nat_beq_iff sid j, lookup-insert j sid (live s r) a.sessions, ne),
)

-- Opening a session either fails and changes nothing, or gives it an id that no session had and leaves every
-- other session as it was.
pub open_session-Opens :
    (c : Setup) (o : OpenRequest) (sids : List ℕ) (host : Host) (now : ℕ) (a : Agent)
    → Opens a (open_session c o sids host now a)
unfolding open_session
open_session-Opens c o sids host now a = elim (Option-cases (known_tool o.tool)) [
  | inl n ↦ rw (n, open_session) refl
  | inr (tool, t) ↦
      rw (t, open_session)
        (elim (Option-cases (resolve c.trim c.resolver o.preset)) [
          | inl n ↦ rw n refl
          | inr (env, e) ↦ rw e (elim (Option-cases (free_sid a sids)) [
            | inl n ↦ rw n refl
            | inr (sid, f) ↦ rw f (elim (Option-cases (settings_of c tool sid)) [
              | inl n ↦ rw n refl
              | inr (path, p) ↦ rw p (begun-Opens a sid _ (free_sid-free a sids sid f))
            ])
          ])
        ])
]
