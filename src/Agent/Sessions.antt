-- ===== src/Agent/Sessions.antt =====
-- The sessions that the agent forgets, and the approvals that the relay is told of.
use mathlib.Core.Path.{subst}
use terminal_x.Common.{
  ℕ, ◌≡◌, refl, inl, inr, sym, ap, ◌∙◌, ℤ, Bool, true, false, String, Option, none, some, List, [],
  ◌∷◌, ◌++◌, All, All-append, nat_beq, if◌then◌else◌, Bool-cases, Option-cases, nat_key, string_key,
}
use terminal_x.Common.Maps.{lookup, lookup-delete}
use terminal_x.Proto.Messages.{
  Approval, ApprovalStatus, Resumable, SessionState, NeedKind, Source, Confidence, is_pending,
}
use terminal_x.Proto.Envelope.{Msg, MsgType}
use terminal_x.Proto.Frame as frame
use terminal_x.Proto.Frame.{Frame, parse_eof, frame_ack, frame_eof}
use terminal_x.Proto.Frame.Payloads.{parse_eof-eof_payload}
use terminal_x.Proto.Frame.Words.{IsInt32}
use terminal_x.Session.Life.{set_state}
use terminal_x.Hooks.Approvals.{Store, get, mark}
use terminal_x.Hooks.Approvals.Sorting.{In}
use terminal_x.Hooks.Approvals.Invariant.{Inv}
use terminal_x.Hooks.Approvals.Sessions.{open_at, close_session_lem}
use terminal_x.Hooks.Approvals.Closings.{close_session_complete}
use terminal_x.Hooks.Server.Calls as calls
use terminal_x.Hooks.Server.Calls.{Reply}
use terminal_x.Hooks.Server.Told.{Tells}
use terminal_x.Hooks.Server.Serve.{Server, Request, serve, serve-Agrees}
use terminal_x.Agent.{
  Agent, Live, Effect, Step, approval_closed, closed_all, close_approvals, forget_session, on_exit,
  tell, tell_all, session_state, session_updated, forget,
}

closed_all-In :
    (a : Agent) (by : String) (aps : List Approval) (ap' : Approval)
    → In ap' aps
    → In (approval_closed a ap' by) (closed_all a by aps)
closed_all-In a by [] ap' h = absurd h
closed_all-In a by (x ∷ aps) ap' (inl e) = inl (ap (λ y. approval_closed a y by) e)
closed_all-In a by (x ∷ aps) ap' (inr h) = inr (closed_all-In a by aps ap' h)

In-front : (e : Effect) (front back : List Effect) → In e front → In e (front ++ back)
In-front e [] back h = absurd h
In-front e (f ∷ front) back (inl q) = inl q
In-front e (f ∷ front) back (inr h) = inr (In-front e front back h)

-- The approval is not pending any more, and the relay was told so if it was; another session's is untouched.
abbrev pub Dropped : ℕ → String → ℕ → String → Approval → Agent → Step → Type 0
Dropped sid by now k ap' a (out, a') =
    if nat_beq ap'.sid sid
    then (open_at a'.store k ≡ false)
      × (is_pending ap'.status ≡ true
          → In (approval_closed a (mark ApprovalStatus.closed_local by now ap') by) out)
    else get a'.store k ≡ some ap'

close_approvals-Dropped :
    (sid : ℕ) (by : String) (now : ℕ) (k : String) (ap' : Approval) (a : Agent)
    → Inv a.store
    → get a.store k ≡ some ap'
    → Dropped sid by now k ap' a (close_approvals sid by now a)
close_approvals-Dropped sid by now k ap' a v e =
    let status = ApprovalStatus.closed_local in
    let closed = close_session_lem a.store sid status by now k ap' v refl e in
    elim (Bool-cases (nat_beq ap'.sid sid)) [
      | inl own ↦
          let shut = rw own at closed in
          rw own (
            shut,
            λ o.
                closed_all-In a by _ _
                  (close_session_complete status by now refl a.store sid k ap' e o shut),
          )
      | inr other ↦ rw other (rw other at closed)
    ]

-- When a console closes a session that is there, the session is forgotten and no other, no approval of it
-- is pending any more and the relay is told so of each that was, and the approvals of other sessions
-- are untouched, in a store that keeps its invariant.
pub forget_session-Dropped :
    (sid now : ℕ) (a : Agent) (l : Live) (j : ℕ) (k : String) (ap' : Approval)
    → Inv a.store
    → lookup sid a.sessions ≡ some l
    → get a.store k ≡ some ap'
    → ((forget_session sid now a).0 ≡ true)
      × (lookup j (forget_session sid now a).1.1.sessions
          ≡ (if nat_beq sid j then none else lookup j a.sessions))
      × Dropped sid "close" now k ap' a (forget_session sid now a).1
unfolding forget_session
forget_session-Dropped sid now a l j k ap' v known e =
    let left = forget sid a in
    let d = close_approvals-Dropped sid "close" now k ap' left v e in
    rw (known, forget_session)
      (
        refl,
        lookup-delete j sid a.sessions,
        elim (Bool-cases (nat_beq ap'.sid sid)) [
          | inl own ↦ let g = rw own at d in rw own (g.0, λ o. In-front _ _ _ (g.1 o))
          | inr other ↦ rw other (rw other at d)
        ],
      )

-- A hook request at the agent: what the endpoint answers, and what the agent then does.
abbrev pub hooked : Server → Request → ℕ → Agent → Reply × Step
hooked v r now a =
    let (reply, (told, s)) = serve v r now a.store in
    (reply, tell_all told now (record a { store = s }))

-- The approval of a message is in the store, but for the device's id, pending or not.
abbrev pub Stands : Store → Bool → Option Approval → Type 0
Stands s p none = ⊥
Stands s p (some ap') =
    (x : Approval) × (get s ap'.key ≡ some x)
    × (is_pending x.status ≡ p)
    × (ap' ≡ record x { device_id = ap'.device_id })

abbrev pub Says : Store → MsgType → Msg → Type 0
Says s MsgType.approval_new m = Stands s true m.approval
Says s MsgType.approval_closed m = Stands s false m.approval
Says s _ m = Unit

abbrev pub Honest : Store → Effect → Type 0
Honest s (Effect.sends m) = Says s m.t m
Honest s _ = Unit

session_state-Honest :
    (sid : ℕ) (st : SessionState) (kind : NeedKind) (src : Source) (conf : Confidence) (now : ℕ)
    (a : Agent)
    → All (Honest a.store) (session_state sid st kind src conf now a).0
      × ((session_state sid st kind src conf now a).1.store ≡ a.store)
unfolding session_state
session_state-Honest sid st kind src conf now a = elim (Option-cases (lookup sid a.sessions)) [
  | inl n ↦ rw (n, session_state) (tt, refl)
  | inr (l, e) ↦
      rw (e, session_state)
        (elim (Bool-cases (set_state l.session st kind src conf now).0) [
          | inl b ↦ rw b ((tt, tt), refl)
          | inr b ↦ rw b (tt, refl)
        ])
]

session_updated-Honest :
    (sid : ℕ) (cost pct : Option ℕ) (now : ℕ) (a : Agent)
    → All (Honest a.store) (session_updated sid cost pct now a).0
      × ((session_updated sid cost pct now a).1.store ≡ a.store)
unfolding session_updated
session_updated-Honest sid cost pct now a = elim (Option-cases (lookup sid a.sessions)) [
  | inl n ↦ rw (n, session_updated) (tt, refl)
  | inr (l, e) ↦ rw (e, session_updated) ((tt, tt), refl)
]

tell-Honest :
    (e : calls.Event) (now : ℕ) (a : Agent)
    → Tells a.store e
    → All (Honest a.store) (tell e now a).0 × ((tell e now a).1.store ≡ a.store)
unfolding tell
tell-Honest (calls.Event.session_state sid st kind src conf) now a t =
    session_state-Honest sid st kind src conf now a
tell-Honest (calls.Event.approval_new ap') now a t = (((ap', t.0, t.1, refl), tt), refl)
tell-Honest (calls.Event.approval_closed ap' by) now a t =
    (((ap', t.stored, t.settled, refl), tt), refl)
tell-Honest (calls.Event.session_updated sid cost pct) now a t =
    session_updated-Honest sid cost pct now a
tell-Honest (calls.Event.tool_session sid _ id) now a t = (tt, refl)
tell-Honest (calls.Event.tool_exited sid) now a t = (tt, refl)

tell_all-Honest :
    (es : List calls.Event) (now : ℕ) (a : Agent) (s : Store)
    → a.store ≡ s
    → All (Tells s) es
    → All (Honest s) (tell_all es now a).0 × ((tell_all es now a).1.store ≡ s)
unfolding tell_all
tell_all-Honest [] now a s q h = (tt, q)
tell_all-Honest (e ∷ es) now a s q (t, h) =
    let (first, same) = tell-Honest e now a (subst (λ x. Tells x e) (sym q) t) in
    let (rest, end) = tell_all-Honest es now (tell e now a).1 s (same ∙ q) h in
    (All-append (Honest s) _ _ (subst (λ x. All (Honest x) (tell e now a).0) q first) rest, end)

-- When a hook request comes in at an agent whose approval store keeps its invariant, the store keeps it, and
-- every message about an approval that the relay is sent tells what is then in the store: a new one is
-- there and pending, and a closed one is there and settled.
pub hooked-Honest :
    (v : Server) (r : Request) (now : ℕ) (a : Agent)
    → Inv a.store
    → Inv (hooked v r now a).1.1.store
      × All (Honest (hooked v r now a).1.1.store) (hooked v r now a).1.0
hooked-Honest v r now a i =
    let g = serve-Agrees v r now a.store i in
    let s = (serve v r now a.store).1.1 in
    let (told, end) =
      tell_all-Honest (serve v r now a.store).1.0 now (record a { store = s }) s refl g.tells in
    (subst Inv (sym end) g.kept, subst (λ x. All (Honest x) (hooked v r now a).1.0) (sym end) told)

-- When a session's process ends with an exit code of 32 bits, the relay is sent first an end-of-stream frame
-- of the session, with a payload that reads back as the code, then the message of the exit, with the
-- session, the code and how to resume, and then what is closed: in a store that keeps its invariant
-- no approval of the session is pending any more, the relay is told of each that was, and those of
-- other sessions are untouched.
pub on_exit-Dropped :
    (sid : ℕ) (code : ℤ) (r : Resumable) (now : ℕ) (k : String) (ap' : Approval) (a : Agent)
    → IsInt32 code
    → Inv a.store
    → get a.store k ≡ some ap'
    → ((f : Frame) × (m : Msg) × (told : List Effect) × ((on_exit sid code r now a).0
          ≡ Effect.sends_frame f ∷ Effect.sends m ∷ told)
        × (f.type ≡ frame_eof)
        × (f.sid ≡ sid)
        × (parse_eof f.payload ≡ frame.Result.ok code)
        × (m.t ≡ MsgType.session_exited)
        × (m.sid ≡ sid)
        × (m.code ≡ some code)
        × (m.resumable ≡ some r))
      × Dropped sid "exit" now k ap' a (on_exit sid code r now a)
unfolding on_exit
on_exit-Dropped sid code r now k ap' a c v e =
    let d = close_approvals-Dropped sid "exit" now k ap' a v e in
    (
      (
        _,
        _,
        _,
        refl,
        refl,
        refl,
        (parse_eof-eof_payload code [] c (λ q. cc)).0,
        refl,
        refl,
        refl,
        refl,
      ),
      elim (Bool-cases (nat_beq ap'.sid sid)) [
        | inl own ↦ let g = rw own at d in rw own (g.0, λ o. inr (inr (g.1 o)))
        | inr other ↦ rw other (rw other at d)
      ],
    )
