-- ===== src/Session/Output/Tests.antt =====
-- A session with six bytes of output, two of them not delivered yet, in a ring of four, and the properties
-- at it.
use terminal_x.Common.{
  ℕ, zero, suc, ◌+◌, ◌-◌, ◌%◌, ◌<◌, ◌≡◌, refl, true, List, [], ◌∷◌, ◌++◌, length, take, get_or,
  arith,
}
use terminal_x.Session.Ring.{Ring}
use terminal_x.Session.Ring.Stream.{Holds}
use terminal_x.Session.Output.{Output, replayed, flush}
use terminal_x.Session.Output.Delivered.{
  Flowing, Step, run, appended, bytes_of, Contiguous, run-Flowing,
}
use terminal_x.Session.Output.Replayed.{appends_all, replay_then_live}

abbrev ring : Ring
ring = record { buf = 5 ∷ 6 ∷ 3 ∷ 4 ∷ []; start = 2; n = 4; seq = 6 }

abbrev pub sent : List ℕ
sent = 1 ∷ 2 ∷ 3 ∷ 4 ∷ []

abbrev pub output : Output
output = record {
  ring = ring;
  pending = 5 ∷ 6 ∷ [];
  pending_seq = 4;
  timer = true;
  listening = true;
}

ring-Holds : Holds ring (sent ++ (5 ∷ 6 ∷ []))
ring-Holds = record {
  room = omega arith;
  start_in = omega arith;
  n_eq = refl;
  seq_eq = refl;
  bytes = bytes_at;
}
  where
    bytes_at :
        (i : ℕ)
        → i < 4
        → get_or ring.buf ((2 + i) % 4) 0 ≡ get_or (sent ++ (5 ∷ 6 ∷ [])) (6 - 4 + i) 0
    bytes_at zero l = refl
    bytes_at (suc zero) l = refl
    bytes_at (suc (suc zero)) l = refl
    bytes_at (suc (suc (suc zero))) l = refl
    bytes_at (suc (suc (suc (suc i)))) l = ground arith

pub output-Flowing : Flowing output sent
output-Flowing = record { held = ring-Holds; at = λ e. refl; live = refl }

abbrev steps : List Step
steps = Step.appends (7 ∷ []) ∷ Step.flushes ∷ Step.appends (8 ∷ 9 ∷ []) ∷ []

run-Flowing_example :
    (bytes_of (run output steps).0 ++ (run output steps).1.pending
      ≡ output.pending ++ appended steps)
    × Contiguous (length sent) (run output steps).0
    × Flowing (run output steps).1 (sent ++ bytes_of (run output steps).0)
run-Flowing_example = run-Flowing output sent steps output-Flowing (unfold appended in omega arith)

abbrev between : List (List ℕ)
between = (6 ∷ []) ∷ []

replay_then_live_example :
    let stream = sent ++ (5 ∷ 6 ∷ []) in
    let missed = appended (appends_all between) in
    let o1 = (run (flush output).1 (appends_all between)).1 in
    let r = replayed o1 4 in
    let (live, end) = run o1 steps in
    (take 4 stream ++ r.bytes ≡ stream ++ missed)
    × (r.end_seq ≡ length (stream ++ missed))
    × (r.is_delta ≡ true)
    × (bytes_of live ++ end.pending ≡ missed ++ appended steps)
    × Contiguous (length stream) live
replay_then_live_example =
    replay_then_live output sent 4 between steps output-Flowing (unfold appended in omega arith)
      (unfold appended in omega arith) (omega arith)
