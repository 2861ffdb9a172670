-- ===== src/Session/Life/Start/Starts.antt =====
-- What a start leaves behind.
use mathlib.Core.Path.{subst}
use terminal_x.Common.{
  ℕ, zero, suc, ◌%◌, ◌^◌, ◌≡◌, ◌≢◌, ◌<◌, refl, inl, inr, ℤ, pos, negsuc, Bool, true, false, String,
  none, some, List, [], ◌∷◌, nat_beq, if◌then◌else◌, length, arith, Bool-cases, Option-cases,
}
use terminal_x.Proto.Messages.{SessionState}
use terminal_x.Session.Ring.{Ring, new, write}
use terminal_x.Session.Ring.Stream.{Holds, write-Holds}
use terminal_x.Session.Ring.Replay.{new-Holds}
use terminal_x.Session.Life.{Session, Result, current, alive}
use terminal_x.Session.Life.Start.{
  Options, Host, Start, start, new_sid, with_defaults, directory, adoption, persists, positive_or,
  nonzero_or, session_of, history,
}

-- A session id that is drawn has 31 bits and is not zero.
new_sid_lem : (ws : List ℕ) (sid : ℕ) → new_sid ws ≡ some sid → (sid ≢ 0) × (sid < 2 ^ 31)
unfolding new_sid
new_sid_lem [] sid e = cc
new_sid_lem (w ∷ ws) sid e = elim (Bool-cases (nat_beq (w % 2 ^ 31) 0)) [
  | inl z ↦ new_sid_lem ws sid (rw z at e)
  | inr z ↦ ground (arith, e, z)
]

positive_or-new : (z : ℤ) (d : ℕ) → (r : Ring) × (new (positive_or z (suc d)) ≡ some r) × Holds r []
positive_or-new (negsuc _) d = let (r, e, h, _) = (new-Holds d).2 in (r, e, h)
positive_or-new (pos zero) d = let (r, e, h, _) = (new-Holds d).2 in (r, e, h)
positive_or-new (pos (suc k)) d = let (r, e, h, _) = (new-Holds k).2 in (r, e, h)

ring_size-new :
    (o : Options) (random : ℕ)
    → (r : Ring) × (new (with_defaults o random).ring_size ≡ some r) × Holds r []
unfolding with_defaults
ring_size-new o random = positive_or-new o.ring_size 4194303

-- What a start that succeeds went through.
record Went (o : Options) (adopt : Bool) (host : Host) (now : ℕ) (s : Session) (r : Ring)
    : Type 0 where
  cwd : String
  shell : String
  ring : Ring
  process : ℕ
  holds : Holds ring []
  adopted : adoption o adopt host ≡ none
  spawned : host.spawned ≡ some process
  session : session_of o cwd shell (persists o host) process now ≡ s
  seeded : (write ring (history adopt host)).0 ≡ r

start-Went :
    (o' : Options) (adopt : Bool) (host : Host) (now : ℕ) (s : Session) (r : Ring)
    → start o' adopt host now ≡ Start.started s r
    → Went (with_defaults o' host.random) adopt host now s r
unfolding start
start-Went o' adopt host now s r e =
    let o = with_defaults o' host.random in
    let (ring, made, holds) = ring_size-new o' host.random in
    elim (Option-cases (directory o host)) [
      | inl n ↦ cc (rw (n, start) at e)
      | inr (cwd, d) ↦
          let e1 = rw (d, start) at e in
          elim (Option-cases (host.shell_of o.shell)) [
            | inl n ↦ cc (rw n at e1)
            | inr ((shell, kind), h) ↦
                let e2 = rw (h, made) at e1 in
                elim (Option-cases (adoption o adopt host)) [
                  | inr (x, a) ↦ cc (rw a at e2)
                  | inl a ↦
                      let e3 = rw a at e2 in
                      elim (Option-cases host.spawned) [
                        | inl n ↦ cc (rw n at e3)
                        | inr (p, q) ↦
                            let e4 = rw q at e3 in
                            record {
                              cwd = cwd;
                              shell = shell;
                              ring = ring;
                              process = p;
                              holds = holds;
                              adopted = a;
                              spawned = q;
                              session = cc;
                              seeded = cc;
                            }
                      ]
                ]
          ]
    ]

nonzero_or-nonzero : (n d : ℕ) → d ≢ 0 → nonzero_or n d ≢ 0
nonzero_or-nonzero n d h = elim (Bool-cases (nat_beq n 0)) [
  | inl z ↦ rw z h
  | inr z ↦ rw z (λ e. ground (arith, z, e))
]

history-Holds :
    (ring : Ring) (adopt : Bool) (host : Host)
    → Holds ring []
    → length host.tmux_capture < 2 ^ 64
    → Holds (write ring (history adopt host)).0 (if adopt then host.tmux_capture else [])
history-Holds ring false host h l = (write-Holds ring [] [] h (omega arith)).0
history-Holds ring true host h l = (write-Holds ring [] host.tmux_capture h (omega (arith, l))).0

adoption-tmux :
    (o : Options) (adopt : Bool) (host : Host)
    → adoption o adopt host ≡ none
    → adopt ≡ true
    → (host.tmux_has ≡ true) × (persists o host ≡ true)
unfolding adoption
adoption-tmux o false host a t = cc
adoption-tmux o true host a t = elim (Bool-cases (persists o host)) [
  | inr q ↦ cc (rw (q, adoption) at a)
  | inl q ↦
      let b = rw (q, adoption) at a in
      elim (Bool-cases host.tmux_has) [ inl h ↦ (h, q) | inr h ↦ cc (rw h at b) ]
]

-- A session that starts, new or adopted from tmux, has an id, a size, the process that was made, which takes
-- its input, and the running state; its ring holds what tmux had of an adopted session and nothing for a
-- new one; and an adopted session is one that tmux still has.
pub start_lem :
    (o : Options) (adopt : Bool) (host : Host) (now : ℕ) (s : Session) (r : Ring)
    → host.random ≢ 0
    → length host.tmux_capture < 2 ^ 64
    → start o adopt host now ≡ Start.started s r
    → ((s.info.sid ≢ 0) × (s.info.cols ≢ 0) × (s.info.rows ≢ 0))
      × ((p : ℕ) × (host.spawned ≡ some p) × (current s ≡ Result.ok p))
      × (s.info.state ≡ SessionState.running)
      × Holds r (if adopt then host.tmux_capture else [])
      × (adopt ≡ true → (host.tmux_has ≡ true) × (s.persist ≡ true))
unfolding current alive adoption with_defaults
start_lem o adopt host now s r n l e =
    let w = start-Went o adopt host now s r e in
    let full = with_defaults o host.random in
    (
      subst (λ (x : Session). (x.info.sid ≢ 0) × (x.info.cols ≢ 0) × (x.info.rows ≢ 0)) w.session
          (
            nonzero_or-nonzero o.sid host.random n,
            nonzero_or-nonzero o.cols 120 (λ q. cc),
            nonzero_or-nonzero o.rows 36 (λ q. cc),
          ),
      (w.process, w.spawned, subst (λ x. current x ≡ Result.ok w.process) w.session refl),
      subst (λ (x : Session). x.info.state ≡ SessionState.running) w.session refl,
      subst (λ x. Holds x (if adopt then host.tmux_capture else [])) w.seeded
          (history-Holds w.ring adopt host w.holds l),
      λ t.
          let (had, kept) = adoption-tmux full adopt host w.adopted t in
          (had, subst (λ (x : Session). x.persist ≡ true) w.session kept),
    )
