-- ===== src/Agent/Messages.antt =====
-- internal/agent/handle.go: what the relay sends.
use terminal_x.Common.{
  ℕ, Bool, true, false, String, Option, none, some, List, [], ◌∷◌, ◌++◌, ltb, nat_beq,
  if◌then◌else◌, nat_key, string_key, ◌==◌,
}
use terminal_x.Common.Maps.{lookup, insert}
use terminal_x.Proto.Messages.{ApprovalMode, Approval}
use terminal_x.Proto.Envelope.{Msg, MsgType, DecisionText, blank}
use terminal_x.Proto.Frame as frame
use terminal_x.Proto.Frame.{Frame, parse_resize, frame_input, frame_resize, frame_ack}
use terminal_x.Hooks.Approvals.{Choice, decide}
use terminal_x.Session.Life.{
  Session, Error, Signal, Control, current, resize, detach, set_approval_mode, control,
}
use terminal_x.Session.Life.Ends.{begin_kill, end_kill}
use terminal_x.Session.Life as life
use terminal_x.Agent.{
  Agent, Live, Effect, Step, info_of, change, reply_error, reply_ack, forget_session, handle_attach,
}

-- The bytes for a session's process.
abbrev writing : life.Result ℕ → List ℕ → List Effect
writing (life.Result.ok p) bytes = Effect.writes p bytes ∷ []
writing (life.Result.err _) bytes = []

abbrev sizing : life.Result ℕ → ℕ → ℕ → List Effect
sizing (life.Result.ok p) cols rows = Effect.sizes p cols rows ∷ []
sizing (life.Result.err _) cols rows = []

-- `Resize` of a session that is there.
abbrev pub resized : ℕ → Live → ℕ → ℕ → Agent → Step
resized sid l cols rows a =
    (sizing (resize l.session cols rows).0 cols rows, change sid (λ s. (resize s cols rows).1) a)

abbrev pub ack_of : Option ℕ → ℕ
ack_of none = 0
ack_of (some n) = n

unfoldable pub handle_frame : Frame → Agent → Step
handle_frame f a =
    if nat_beq f.type frame_input
    then elim (lookup f.sid a.sessions) [
      | none ↦ ([], a)
      | some l ↦ (writing (current l.session) f.payload, a)
    ]
    else if nat_beq f.type frame_resize
    then elim (lookup f.sid a.sessions) [
      | none ↦ ([], a)
      | some l ↦ elim (parse_resize f.payload) [
        | frame.Result.err _ ↦ ([], a)
        | frame.Result.ok (cols, rows) ↦ resized f.sid l cols rows a
      ]
    ]
    else if nat_beq f.type frame_ack
    then (
      [],
      if ltb (ack_of (lookup f.sid a.acks)) f.seq
          then record a { acks = insert f.sid f.seq a.acks }
          else a,
    )
    else ([], a)

-- The texts of the errors, without what they quote.
abbrev error_text : Error → String
error_text Error.exited = "session: process exited"
error_text Error.empty_size = "session: cols/rows must be > 0"
error_text Error.in_progress = "session: kill_resume already in progress"
error_text Error.unknown_signal = "session: unknown signal"
error_text Error.pty_failed = "session: write pty"
error_text Error.respawn_failed = "session: respawn after kill"

-- An acknowledgement, or the error.
abbrev answered : {A : Type 0} → Msg → life.Result A → List Effect
answered m (life.Result.ok _) = reply_ack m
answered m (life.Result.err e) = reply_error m (error_text e) ∷ []

abbrev signal_of : String → Signal
signal_of sig =
    if sig == "esc"
    then Signal.esc
    else if sig == "ctrl_c"
    then Signal.ctrl_c
    else if sig == "eof"
    then Signal.eof
    else if sig == "kill_resume"
    then Signal.kill_resume
    else Signal.other sig

abbrev restarting : Msg → life.Result (Option ℕ) → List Effect
restarting m (life.Result.ok p) = Effect.restarts p ∷ []
restarting m (life.Result.err e) = reply_error m (error_text e) ∷ []

-- The signal of a session; a restart is answered when it ends.
unfoldable pub handle_signal : Msg → Live → Agent → Step
handle_signal m l a = elim (control (signal_of m.sig)) [
  | Control.types bytes ↦ (writing (current l.session) bytes ++ answered m (current l.session), a)
  | Control.restarts ↦
      (restarting m (begin_kill l.session).0, change m.sid (λ s. (begin_kill s).1) a)
  | Control.unknown ↦ (reply_error m (error_text Error.unknown_signal) ∷ [], a)
]

abbrev ended : Msg → Live → life.Result ℕ → List Effect
ended m l (life.Result.err e) = reply_error m (error_text e) ∷ []
ended m l (life.Result.ok p) =
    Effect.sends
      (record (blank MsgType.session_updated) { sid = m.sid; session = some (info_of l) })
    ∷ reply_ack m

-- The end of a restart of the session, as it is then, with the process that was made.
unfoldable pub end_signal : Msg → Live → Option ℕ → Agent → Step
end_signal m l p a =
    let (r, s) = end_kill l.session p in
    (ended m (record l { session = s }) r, change m.sid (λ s. (end_kill s p).1) a)

abbrev is_mode : ApprovalMode → Bool
is_mode ApprovalMode.notify = true
is_mode ApprovalMode.remote_first = true
is_mode _ = false

abbrev choice_of : DecisionText → Choice
choice_of DecisionText.unset = Choice.nothing
choice_of DecisionText.allow = Choice.allow
choice_of DecisionText.deny = Choice.deny
choice_of DecisionText.fallback = Choice.other "fallback"
choice_of (DecisionText.other t) = Choice.other t

abbrev decider : Msg → String
decider m = if m.by == "" then if m.client_id == "" then "relay" else m.client_id else m.by

abbrev or_error : Msg → Option Approval → List Effect
or_error m none = reply_error m "approval not pending" ∷ []
or_error m (some _) = []

abbrev unknown : Msg → Agent → Step
unknown m a = (reply_error m "unknown session" ∷ [], a)

-- `handleMsg`, but for session.open and the clock of an echoed heartbeat.
unfoldable pub handle_msg : Msg → ℕ → Agent → Step
handle_msg m now a = elim m.t [
  | MsgType.ack ↦ (
    [],
    if m.req_id == ""
        then a
        else if m.req_id == a.hello_id
        then record a { hello_ok = true }
        else a,
  )
  | MsgType.session_attach ↦ handle_attach m a
  | MsgType.session_detach ↦ ([], change m.sid detach a)
  | MsgType.session_resize ↦ elim (lookup m.sid a.sessions) [
    | none ↦ unknown m a
    | some l ↦
        let (out, a') = resized m.sid l m.cols m.rows a in
        (out ++ answered m (resize l.session m.cols m.rows).0, a')
  ]
  | MsgType.session_signal ↦ elim (lookup m.sid a.sessions) [
    | none ↦ unknown m a
    | some l ↦ handle_signal m l a
  ]
  | MsgType.session_close ↦
      let (known, (out, a')) = forget_session m.sid now a in
      if known
      then (
        out
            ++ Effect.sends (record (blank MsgType.session_closed) {
              req_id = m.req_id;
              client_id = m.client_id;
              sid = m.sid;
            })
              ∷ [],
        a',
      )
      else (reply_error m "unknown session" ∷ [], a')
  | MsgType.session_set_mode ↦ elim (lookup m.sid a.sessions) [
    | none ↦ unknown m a
    | some l ↦
        if is_mode m.mode
        then (
          Effect.sends (record (blank MsgType.session_updated) {
            sid = m.sid;
            session = some (info_of (record l { session = set_approval_mode l.session m.mode }));
          })
              ∷ reply_ack m,
          change m.sid (λ s. set_approval_mode s m.mode) a,
        )
        else (reply_error m "mode must be notify or remote_first" ∷ [], a)
  ]
  | MsgType.approval_decide ↦
      let (decided, s) = decide a.store m.key (choice_of m.decision) (decider m) now in
      (or_error m decided, record a { store = s })
  | _ ↦ ([], a)
]
