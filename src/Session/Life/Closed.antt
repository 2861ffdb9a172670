-- ===== src/Session/Life/Closed.antt =====
-- What closing ends.
use terminal_x.Common.{◌≡◌, true, none, arith}
use terminal_x.Session.Life.{
  Session, Result, Error, current, alive, set_state, set_metrics, set_approval_mode,
  set_tool_session, exit_tool, attach, detach, resize,
}
use terminal_x.Session.Life.Ends.{
  count_reattach, exit, reattached, lose, begin_kill, end_kill, close, suspend,
}
use terminal_x.Session.Life.Steps.{World, Step, Later, now, later}

suspend-closed : (s : Session) → s.closed ≡ true → (suspend s).1.closed ≡ true
unfolding suspend close
suspend-closed s c = ground (arith, c)

Step-closed : (w w' : World) → Step w w' → w.session.closed ≡ true → w'.session.closed ≡ true
unfolding set_state set_metrics set_approval_mode set_tool_session exit_tool attach detach resize
    exit count_reattach reattached lose begin_kill end_kill close
Step-closed _ _ (Step.sets_state w st kind src conf t ne) c = ground (arith, c)
Step-closed _ _ (Step.sets_metrics w cost pct t) c = c
Step-closed _ _ (Step.sets_mode w m) c = ground (arith, c)
Step-closed _ _ (Step.sets_tool w id) c = c
Step-closed _ _ (Step.exits_tool w) c = c
Step-closed _ _ (Step.attaches w) c = c
Step-closed _ _ (Step.detaches w) c = c
Step-closed _ _ (Step.resizes w cols rows) c = ground (arith, c)
Step-closed _ _ (Step.judges w p e) c = c
Step-closed _ _ (Step.is_superseded w p e) c = c
Step-closed _ _ (Step.exits w p code e) c = c
Step-closed _ _ (Step.loses_client w p lived persists e) c = c
Step-closed _ _ (Step.spawns_client w p q e f) c = c
Step-closed _ _ (Step.reattaches w p q e) c = c
Step-closed _ _ (Step.reattach_fails w p e) c = c
Step-closed _ _ (Step.gives_up w p e) c = c
Step-closed _ _ (Step.begins_kill w) c = ground (arith, c)
Step-closed _ _ (Step.spawns w q e f g) c = c
Step-closed _ _ (Step.respawns w q e) c = c
Step-closed _ _ (Step.respawn_fails w e f) c = c
Step-closed _ _ (Step.closes w) c = ground (arith, c)
Step-closed _ _ (Step.suspends w) c = suspend-closed w.session c
Step-closed _ _ (Step.guesses w g) c = c

-- After a session was closed, in every later state, what begins then reaches no process: a write finds the
-- session exited, no restart begins, and closing again finds nothing to stop. A restart that had
-- begun before the closing is not stopped by it.
pub closed_refuses :
    (w w' : World)
    → Later (record w { session = (close w.session).1 }) w'
    → (current w'.session ≡ Result.err Error.exited)
      × (begin_kill w'.session ≡ (Result.err Error.exited, w'.session))
      × (close w'.session ≡ (none, w'.session))
unfolding current alive begin_kill close
closed_refuses w w' l =
    let c = stays (record w { session = (close w.session).1 }) w' (close-closed w.session) l in
    (ground (arith, c), ground (arith, c), ground (arith, c))
  where
    close-closed : (s : Session) → (close s).1.closed ≡ true
    close-closed s = ground arith

    stays : (w w' : World) → w.session.closed ≡ true → Later w w' → w'.session.closed ≡ true
    stays w _ c (now _) = c
    stays w _ c (later _ w1 w2 l s) = Step-closed w1 w2 s (stays w w1 c l)
