-- ===== src/Agent.antt =====
-- internal/agent/agent.go and handle.go: the agent between the hooks, the sessions and the relay. A live session
-- is its state and its output; the offset in its info is that of the output. What the agent sends or asks a process for is an effect, in order.
pub mod Messages
pub mod Attaching
pub mod Consoles
pub mod Sessions
pub mod Opening
pub mod Persist
pub mod Acks
pub mod Presets
mod Tests
use terminal_x.Common.{
  ℕ, ◌+◌, ◌*◌, ◌^◌, ℤ, Bool, true, false, String, Option, none, some, List, [], ◌∷◌, ◌++◌, ◌&&◌,
  ltb, nat_beq, if◌then◌else◌, nat_key, string_key, ◌==◌,
}
use terminal_x.Common.Maps.{lookup, insert, delete, adjust}
use terminal_x.Proto.Messages.{
  SessionState, NeedKind, Source, Confidence, ApprovalLevel, ApprovalStatus, Approval, SessionInfo,
  Resumable, Tool,
}
use terminal_x.Proto.Envelope.{Msg, MsgType, DecisionText, blank}
use terminal_x.Proto.Frame.{
  Frame, chunk, frame_output, frame_snapshot, frame_eof, flag_reset, eof_payload,
}
use terminal_x.Hooks.Approvals.{Store, add, close, close_session}
use terminal_x.Hooks.Server.Calls as calls
use terminal_x.Session.Life.{
  Session, tool_text, set_state, set_metrics, set_tool_session, exit_tool, tool_of, attach,
}
use terminal_x.Session.Life.Ends as ends
use terminal_x.Session.Output.{Output, Replay, Delivery, replay}
use terminal_x.Session.Heuristic.{Verdict, VerdictKind}

pub record Live : Type 0 where
  pub session : Session
  pub output : Output

pub record Agent : Type 0 where
  pub device_id : String
  pub sessions : List (ℕ × Live)
  pub pty_keys : List (ℕ × String)
  pub acks : List (ℕ × ℕ)
  pub store : Store
  pub hello_id : String
  pub hello_ok : Bool

pub data Effect : Type 0 where
  sends_frame : Frame → Effect
  sends : Msg → Effect
  writes : ℕ → List ℕ → Effect
  sizes : ℕ → ℕ → ℕ → Effect
  stops : Option ℕ → Effect
  restarts : Option ℕ → Effect

abbrev pub Step : Type 0
Step = List Effect × Agent

abbrev frames : List Frame → List Effect
frames [] = []
frames (f ∷ fs) = Effect.sends_frame f ∷ frames fs

abbrev pub info_of : Live → SessionInfo
info_of l = record l.session.info { seq = l.output.ring.seq }

abbrev pub change : ℕ → (Session → Session) → Agent → Agent
change sid f a = record a {
  sessions = adjust sid (λ l. record l { session = f l.session }) a.sessions;
}

-- `onOutput`
unfoldable pub on_output : ℕ → Delivery → List Effect
on_output sid (seq, p) = frames (chunk frame_output sid seq p 0)

-- `ApprovalNew` and `ApprovalClosed`
abbrev pub approval_new : Agent → Approval → Effect
approval_new a ap = Effect.sends (record (blank MsgType.approval_new) {
  sid = ap.sid;
  approval = some (record ap { device_id = a.device_id });
})

abbrev fallback_text : ApprovalStatus → DecisionText
fallback_text ApprovalStatus.fallback = DecisionText.fallback
fallback_text _ = DecisionText.unset

abbrev pub approval_closed : Agent → Approval → String → Effect
approval_closed a ap by = Effect.sends (record (blank MsgType.approval_closed) {
  sid = ap.sid;
  key = ap.key;
  by = by;
  approval = some (record ap { device_id = a.device_id });
  decision = fallback_text ap.status;
})

abbrev pub closed_all : Agent → String → List Approval → List Effect
closed_all a by [] = []
closed_all a by (ap ∷ aps) = approval_closed a ap by ∷ closed_all a by aps

-- What closes the approvals of a session: `onExit` and `closeSession`.
abbrev pub close_approvals : ℕ → String → ℕ → Agent → Step
close_approvals sid by now a =
    let (closed, s) = close_session a.store sid ApprovalStatus.closed_local by now in
    (closed_all a by closed, record a { store = s })

unfoldable pub on_exit : ℕ → ℤ → Resumable → ℕ → Agent → Step
on_exit sid code r now a =
    let (told, a') = close_approvals sid "exit" now a in
    (
      Effect.sends_frame
            (record { type = frame_eof; flags = 0; sid = sid; seq = 0; payload = eof_payload code })
          ∷ Effect.sends (record (blank MsgType.session_exited) {
            sid = sid;
            code = some code;
            resumable = some r;
          })
          ∷ told,
      a',
    )

abbrev pub forget : ℕ → Agent → Agent
forget sid a = record a {
  sessions = delete sid a.sessions;
  pty_keys = delete sid a.pty_keys;
  acks = delete sid a.acks;
}

-- `closeSession`: whether the session was known.
unfoldable pub forget_session : ℕ → ℕ → Agent → Bool × Step
forget_session sid now a = elim (lookup sid a.sessions) [
  | none ↦ (false, ([], forget sid a))
  | some l ↦
      let (told, a') = close_approvals sid "close" now (forget sid a) in
      (true, (told ++ Effect.stops (ends.close l.session).0 ∷ [], a'))
]

unfoldable pub session_state : ℕ → SessionState → NeedKind → Source → Confidence → ℕ → Agent → Step
session_state sid st kind src conf now a = elim (lookup sid a.sessions) [
  | none ↦ ([], a)
  | some l ↦
      let (applied, _) = set_state l.session st kind src conf now in
      (
        if applied
            then Effect.sends (record (blank MsgType.session_state) {
              sid = sid;
              state = st;
              kind = kind;
              source = src;
              confidence = conf;
            })
              ∷ []
            else [],
        change sid (λ s. (set_state s st kind src conf now).1) a,
      )
]

unfoldable pub session_updated : ℕ → Option ℕ → Option ℕ → ℕ → Agent → Step
session_updated sid cost pct now a = elim (lookup sid a.sessions) [
  | none ↦ ([], a)
  | some l ↦ (
    Effect.sends (record (blank MsgType.session_updated) {
      sid = sid;
      session = some (info_of (record l { session = set_metrics l.session cost pct now }));
    })
        ∷ [],
    change sid (λ s. set_metrics s cost pct now) a,
  )
]

-- The agent as the hooks' Events.
unfoldable pub tell : calls.Event → ℕ → Agent → Step
tell (calls.Event.session_state sid st kind src conf) now a =
    session_state sid st kind src conf now a
tell (calls.Event.approval_new ap) now a = (approval_new a ap ∷ [], a)
tell (calls.Event.approval_closed ap by) now a = (approval_closed a ap by ∷ [], a)
tell (calls.Event.session_updated sid cost pct) now a = session_updated sid cost pct now a
tell (calls.Event.tool_session sid _ id) now a = ([], change sid (λ s. set_tool_session s id) a)
tell (calls.Event.tool_exited sid) now a = ([], change sid exit_tool a)

unfoldable pub tell_all : List calls.Event → ℕ → Agent → Step
tell_all [] now a = ([], a)
tell_all (e ∷ es) now a =
    let (out, a') = tell e now a in let (rest, end) = tell_all es now a' in (out ++ rest, end)

-- The replay of `handleAttach`, in snapshot frames.
abbrev pub extra_of : Bool → ℕ
extra_of true = 0
extra_of false = flag_reset

abbrev pub snapshot : ℕ → Replay → List Frame
snapshot sid r = chunk frame_snapshot sid r.end_seq r.bytes (extra_of r.is_delta)

abbrev outputs : ℕ → List Delivery → List Effect
outputs sid [] = []
outputs sid (d ∷ ds) = on_output sid d ++ outputs sid ds

abbrev pub reply_error : Msg → String → Effect
reply_error m text = Effect.sends (record (blank MsgType.error) {
  req_id = m.req_id;
  client_id = m.client_id;
  sid = m.sid;
  error = text;
})

abbrev pub reply_ack : Msg → List Effect
reply_ack m =
    if m.req_id == "" && m.client_id == ""
    then []
    else Effect.sends
        (record (blank MsgType.ack) { req_id = m.req_id; client_id = m.client_id; sid = m.sid })
      ∷ []

-- `handleAttach`, without the nudge of a full-screen tool at its end.
unfoldable pub handle_attach : Msg → Agent → Step
handle_attach m a = elim (lookup m.sid a.sessions) [
  | none ↦ (reply_error m "unknown session" ∷ [], a)
  | some l ↦
      let (delivered, r, o) = replay l.output m.last_seq in
      (
        outputs m.sid delivered ++ frames (snapshot m.sid r),
        record a {
          sessions =
              adjust m.sid (λ l. record { session = attach l.session; output = o }) a.sessions;
        },
      )
]

-- One session's part of `runHeuristics`, with the key of a line.
unfoldable pub on_verdict : (ℕ → String → String) → ℕ → Verdict → String → ℕ → Agent → Step
on_verdict pty_key sid v line now a = elim (lookup sid a.sessions) [
  | none ↦ ([], a)
  | some l ↦ elim v.kind [
    | VerdictKind.suspect ↦
        let (out, a1) =
          session_state sid SessionState.needs_input NeedKind.question Source.pty Confidence.low now
            a in
        let (stored, dup, s) = add a1.store (suspected pty_key sid l.session line now) now in
        (
          out ++ (if dup then [] else approval_new a1 stored ∷ []),
          record a1 { store = s; pty_keys = insert sid stored.key a1.pty_keys },
        )
    | VerdictKind.cleared ↦
        let (closed, s) =
          close a.store (key_at (lookup sid a.pty_keys)) ApprovalStatus.closed_local "output" now in
        let a1 = record a { store = s; pty_keys = delete sid a.pty_keys } in
        let (out, a2) =
          session_state sid SessionState.running NeedKind.unset Source.pty Confidence.low now a1 in
        (closed_one a "output" closed ++ out, a2)
    | VerdictKind.unknown ↦
        session_state sid SessionState.unknown NeedKind.unset Source.pty Confidence.low now a
    | VerdictKind.resumed ↦
        session_state sid SessionState.running NeedKind.unset Source.pty Confidence.low now a
    | VerdictKind.none ↦ ([], a)
  ]
]
  where
    key_at : Option String → String
    key_at none = ""
    key_at (some k) = k

    closed_one : Agent → String → Option Approval → List Effect
    closed_one a by none = []
    closed_one a by (some ap) = approval_closed a ap by ∷ []

    suspected : (ℕ → String → String) → ℕ → Session → String → ℕ → Approval
    suspected pty_key sid s line now = record calls.blank {
      key = pty_key sid line;
      sid = sid;
      agent = tool_text (tool_of s);
      tool = "pty";
      summary = line;
      cwd = s.info.cwd;
      level = ApprovalLevel.suspect;
      mode = s.info.approval_mode;
      created_at = now;
    }
