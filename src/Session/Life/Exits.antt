-- ===== src/Session/Life/Exits.antt =====
-- The ends of a session, in every interleaving.
use terminal_x.Common.{
  ℕ, suc, ◌-◌, ◌≡◌, ◌<◌, refl, inl, inr, true, false, not, ◌&&◌, ◌||◌, List, [], ◌∷◌, nat_beq,
  if◌then◌else◌, length, All, min, ltb, arith, Bool-cases, Option-cases,
}
use terminal_x.Proto.Messages.{ApprovalMode}
use terminal_x.Session.Life.{
  Session, Result, current, alive, has, is_exited, set_state, set_metrics, set_approval_mode,
  set_tool_session, exit_tool, attach, detach, resize,
}
use terminal_x.Session.Life.Ends.{
  count_reattach, fast_death, superseded, exit, reattached, lose, begin_kill, end_kill, close,
  suspend,
}
use terminal_x.Session.Life.Steps.{World, Step, Started, Later, now, later}

-- An exited session has no process, an exit code and a way to resume; and one with a process has a
-- generation to take its input.
pub record Sound (s : Session) : Type 0 where
  pub exited :
      is_exited s.info.state ≡ true
      → (s.info.pty_alive ≡ false) × (has s.info.exit_code ≡ true) × (has s.info.resumable ≡ true)
  pub living : s.info.pty_alive ≡ true → has s.cur ≡ true

set_approval_mode-Sound : (s : Session) (m : ApprovalMode) → Sound s → Sound (set_approval_mode s m)
unfolding set_approval_mode
set_approval_mode-Sound s ApprovalMode.unset h = h
set_approval_mode-Sound s ApprovalMode.notify h = record { exited = h.exited; living = h.living }
set_approval_mode-Sound s ApprovalMode.remote_first h = record {
  exited = h.exited;
  living = h.living;
}
set_approval_mode-Sound s (ApprovalMode.other _) h = record { exited = h.exited; living = h.living }

begin_kill-Sound : (s : Session) → Sound s → Sound (begin_kill s).1
unfolding begin_kill
begin_kill-Sound s h = elim (Bool-cases s.closed) [
  | inl c ↦ rw c (record { exited = h.exited; living = h.living })
  | inr c ↦ rw c (elim (Bool-cases s.killing) [
    | inl k ↦ rw k (record { exited = h.exited; living = h.living })
    | inr k ↦ rw k (record { exited = h.exited; living = h.living })
  ])
]

close-Sound : (s : Session) → Sound s → Sound (close s).1
unfolding close
close-Sound s h = elim (Bool-cases s.closed) [
  | inl c ↦ rw c (record { exited = h.exited; living = h.living })
  | inr c ↦ rw c (record { exited = λ x. (refl, (h.exited x).1, (h.exited x).2); living = λ x. cc })
]

suspend-Sound : (s : Session) → Sound s → Sound (suspend s).1
unfolding suspend
suspend-Sound s h =
    let g = close-Sound s h in
    elim (Bool-cases (s.persist && not s.closed)) [
      | inl e ↦ rw e (record { exited = g.exited; living = g.living })
      | inr e ↦ rw e g
    ]

Step-Sound : (w w' : World) → Step w w' → Sound w.session → Sound w'.session
unfolding set_state set_metrics set_tool_session exit_tool attach detach resize superseded exit
    count_reattach reattached lose begin_kill end_kill close suspend
Step-Sound _ _ (Step.sets_state w st kind src conf t ne) h =
    elim (Bool-cases (is_exited w.session.info.state)) [
      | inl e ↦ rw e h
      | inr e ↦ rw e (record { exited = λ x. cc; living = h.living })
    ]
Step-Sound _ _ (Step.sets_metrics w cost pct t) h = record { exited = h.exited; living = h.living }
Step-Sound _ _ (Step.sets_mode w m) h = set_approval_mode-Sound w.session m h
Step-Sound _ _ (Step.sets_tool w id) h = record { exited = h.exited; living = h.living }
Step-Sound _ _ (Step.exits_tool w) h = record { exited = h.exited; living = h.living }
Step-Sound _ _ (Step.attaches w) h = record { exited = h.exited; living = h.living }
Step-Sound _ _ (Step.detaches w) h = record { exited = h.exited; living = h.living }
Step-Sound _ _ (Step.resizes w cols rows) h = elim (Bool-cases (nat_beq cols 0 || nat_beq rows 0)) [
  | inl e ↦ rw e h
  | inr e ↦ rw e (record { exited = h.exited; living = h.living })
]
Step-Sound _ _ (Step.judges w p e) h = h
Step-Sound _ _ (Step.is_superseded w p e) h = h
Step-Sound _ _ (Step.exits w p code e) h = record {
  exited = λ x. (refl, refl, refl);
  living = λ x. cc;
}
Step-Sound _ _ (Step.loses_client w p lived persists e) h = record {
  exited = h.exited;
  living = h.living;
}
Step-Sound _ _ (Step.spawns_client w p q e f) h = h
Step-Sound _ _ (Step.reattaches w p q e) h = record { exited = λ x. cc; living = λ x. refl }
Step-Sound _ _ (Step.reattach_fails w p e) h = record { exited = λ x. cc; living = λ x. cc }
Step-Sound _ _ (Step.gives_up w p e) h = record { exited = λ x. cc; living = λ x. cc }
Step-Sound _ _ (Step.begins_kill w) h = begin_kill-Sound w.session h
Step-Sound _ _ (Step.spawns w q e f g) h = h
Step-Sound _ _ (Step.respawns w q e) h = record { exited = λ x. cc; living = λ x. refl }
Step-Sound _ _ (Step.respawn_fails w e f) h = record { exited = λ x. cc; living = λ x. cc }
Step-Sound _ _ (Step.closes w) h = close-Sound w.session h
Step-Sound _ _ (Step.suspends w) h = suspend-Sound w.session h
Step-Sound _ _ (Step.guesses w g) h = record { exited = h.exited; living = h.living }

Started-Sound : (w : World) (p : ℕ) → Started w p → Sound w.session
Started-Sound w p h = record {
  exited = λ x. ground (arith, h.state, x);
  living = λ x. ground (arith, h.current);
}

-- In every state that a started session can reach, in any interleaving of its operations with the ends of
-- its processes, an exited session has no process, an exit code and a way to resume it; and while it has
-- a process and is not closed, there is a generation that takes its input.
pub Later-Sound :
    (w w' : World) (p : ℕ)
    → Started w p
    → Later w w'
    → Sound w'.session × (alive w'.session ≡ true → (q : ℕ) × (current w'.session ≡ Result.ok q))
unfolding current alive
Later-Sound w w' p h l =
    let g = sound w w' (Started-Sound w p h) l in
    (
      g,
      λ a. elim (Option-cases w'.session.cur) [
        | inl n ↦ absurd (ground (arith, n, g.living, a))
        | inr (q, e) ↦ (q, rw (e, a))
      ],
    )
  where
    sound : (w w' : World) → Sound w.session → Later w w' → Sound w'.session
    sound w _ h (now _) = h
    sound w _ h (later _ w1 w2 l s) = Step-Sound w1 w2 s (sound w w1 h l)

-- How many clients in a row are started for those that die, each after its time.
unfoldable pub attempts : Session → List ℕ → ℕ
attempts s [] = 0
attempts s (lived ∷ lives) =
    let (stop, s') = count_reattach s lived in
    let rest = attempts s' lives in if stop then 0 else suc rest

-- While every client dies within five seconds, a session starts a new one at most three times in all since
-- the last that lived longer, and then stops.
pub attempts_bounded :
    (s : Session) (lives : List ℕ)
    → All (λ lived. lived < fast_death) lives
    → attempts s lives ≡ min (length lives) (3 - s.fast_reattaches)
unfolding attempts count_reattach
attempts_bounded s [] h = omega arith
attempts_bounded s (lived ∷ lives) (l, h) =
    let rest = attempts_bounded (record s { fast_reattaches = suc s.fast_reattaches }) lives h in
    let fast : ltb lived fast_death ≡ true = ground (arith, l) in rw fast (ground (arith, rest))
