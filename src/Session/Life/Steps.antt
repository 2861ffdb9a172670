-- ===== src/Session/Life/Steps.antt =====
-- A session as a transition system: what runs with the mutex held is a step, in any order and interleaving.
-- Each process generation has its own `waitLoop`, whose place between two such parts is its phase.
use terminal_x.Common.{
  ℕ, ◌≡◌, ℤ, Bool, true, false, Option, none, some, String, nat_beq, if◌then◌else◌,
}
use terminal_x.Proto.Messages.{SessionState, NeedKind, Source, Confidence, ApprovalMode}
use terminal_x.Session.Heuristic.{HeurState}
use terminal_x.Session.Life.{
  Session, set_state, set_metrics, set_approval_mode, set_tool_session, exit_tool, attach, detach,
  resize, is_exited,
}
use terminal_x.Session.Life.Ends.{
  superseded, exit, count_reattach, reattached, lose, begin_kill, end_kill, close, suspend,
}

pub data Phase : Type 0 where
  unborn : Phase
  running : Phase
  judged : Bool → Phase
  reattaching : Phase
  spawned : ℕ → Phase
  giving_up : Phase
  ended : Phase

-- `spawning` is the process that a restart has made and not yet put in the place of the old one.
pub record World : Type 0 where
  pub session : Session
  pub phase : ℕ → Phase
  pub spawning : Option ℕ

abbrev pub put : ℕ → Phase → (ℕ → Phase) → ℕ → Phase
put p x phase q = if nat_beq p q then x else phase q

abbrev pub with_session : World → Session → World
with_session w s = record w { session = s }

abbrev pub moves : World → ℕ → Phase → World
moves w p x = record w { phase = put p x w.phase }

abbrev judging : Bool → Phase
judging true = Phase.giving_up
judging false = Phase.reattaching

-- A state that is set is never the exited one; a number is given to one process only, whose loop runs from then
-- on, also while it is not yet the current one; and a loop ends when it has called OnExit, when its
-- process was superseded, or when another client took over.
pub data Step : World → World → Type 0 where
  sets_state :
      (w : World) (st : SessionState) (kind : NeedKind) (src : Source) (conf : Confidence) (now : ℕ)
      → is_exited st ≡ false
      → Step w (with_session w (set_state w.session st kind src conf now).1)
  sets_metrics :
      (w : World) (cost pct : Option ℕ) (now : ℕ)
      → Step w (with_session w (set_metrics w.session cost pct now))
  sets_mode :
      (w : World) (m : ApprovalMode) → Step w (with_session w (set_approval_mode w.session m))
  sets_tool : (w : World) (id : String) → Step w (with_session w (set_tool_session w.session id))
  exits_tool : (w : World) → Step w (with_session w (exit_tool w.session))
  attaches : (w : World) → Step w (with_session w (attach w.session))
  detaches : (w : World) → Step w (with_session w (detach w.session))
  resizes : (w : World) (cols rows : ℕ) → Step w (with_session w (resize w.session cols rows).1)
  judges :
      (w : World) (p : ℕ)
      → w.phase p ≡ Phase.running
      → Step w (moves w p (Phase.judged (superseded w.session p)))
  is_superseded :
      (w : World) (p : ℕ) → w.phase p ≡ Phase.judged true → Step w (moves w p Phase.ended)
  exits :
      (w : World) (p : ℕ) (code : ℤ)
      → w.phase p ≡ Phase.judged false
      → Step w (with_session (moves w p Phase.ended) (exit w.session code).1)
  loses_client :
      (w : World) (p lived : ℕ)
      → w.session.persist ≡ true
      → w.phase p ≡ Phase.judged false
      → Step w (
          with_session
            (moves w p (judging (count_reattach w.session lived).0))
            (count_reattach w.session lived).1)
  spawns_client :
      (w : World) (p q : ℕ)
      → w.phase p ≡ Phase.reattaching
      → w.phase q ≡ Phase.unborn
      → Step w (moves (moves w p (Phase.spawned q)) q Phase.running)
  reattaches :
      (w : World) (p q : ℕ)
      → w.phase p ≡ Phase.spawned q
      → Step w (with_session (moves w p Phase.ended) (reattached w.session q))
  reattach_fails :
      (w : World) (p : ℕ)
      → w.phase p ≡ Phase.reattaching
      → Step w (with_session (moves w p Phase.ended) (lose w.session).1)
  gives_up :
      (w : World) (p : ℕ)
      → w.phase p ≡ Phase.giving_up
      → Step w (with_session (moves w p Phase.ended) (lose w.session).1)
  begins_kill : (w : World) → Step w (with_session w (begin_kill w.session).1)
  spawns :
      (w : World) (q : ℕ)
      → w.session.killing ≡ true
      → w.spawning ≡ none
      → w.phase q ≡ Phase.unborn
      → Step w (record (moves w q Phase.running) { spawning = some q })
  respawns :
      (w : World) (q : ℕ)
      → w.spawning ≡ some q
      → Step w (record w { session = (end_kill w.session (some q)).1; spawning = none })
  respawn_fails :
      (w : World)
      → w.session.killing ≡ true
      → w.spawning ≡ none
      → Step w (with_session w (end_kill w.session none).1)
  closes : (w : World) → Step w (with_session w (close w.session).1)
  suspends : (w : World) → Step w (with_session w (suspend w.session).1)
  guesses : (w : World) (h : HeurState) → Step w (with_session w (record w.session { heur = h }))

-- After `start`: one generation runs, the session is alive, and no restart has made a process.
pub record Started (w : World) (p : ℕ) : Type 0 where
  pub current : w.session.cur ≡ some p
  pub alive : w.session.info.pty_alive ≡ true
  pub state : w.session.info.state ≡ SessionState.running
  pub quiet : w.spawning ≡ none

pub data Later : World → World → Type 0 where
  now : (w : World) → Later w w
  later : (w w1 w2 : World) → Later w w1 → Step w1 w2 → Later w w2
