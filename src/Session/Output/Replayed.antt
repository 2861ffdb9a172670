-- ===== src/Session/Output/Replayed.antt =====
-- What a replay gives a client, and what follows it live.
use mathlib.Core.Path.{subst}
use terminal_x.Common.{
  ℕ, zero, suc, ◌+◌, ◌-◌, ◌^◌, ◌<◌, ◌≤◌, ◌≡◌, ◌⊎◌, ◌∷◌, refl, sym, ap, ◌∙◌, true, false, List, [],
  ◌++◌, append-nil, length-append, length, take, drop, length-drop, min, arith,
}
use terminal_x.Session.Ring.{Ring}
use terminal_x.Session.Ring.Replay.{delta_lem, delta_refused, tail_lem, length-write}
use terminal_x.Session.Output.{Output, replay, replayed, append, flush, snapshot_tail}
use terminal_x.Session.Output.Delivered.{
  Flowing, flush-Flowing, flushed, Step, run, appended, bytes_of, Contiguous, run-Flowing,
}

flush-ring : (o : Output) → (flush o).1.ring ≡ o.ring
unfolding flush
flush-ring o = refl

-- A client that has the stream up to an offset which the ring still reaches back to gets exactly the rest
-- of the stream, pending output included, and the offset of its end; the pending output is delivered
-- before, and none is left.
pub replay_delta :
    (o : Output) (h : List ℕ) (last_seq : ℕ)
    → Flowing o h
    → length (h ++ o.pending) < 2 ^ 64
    → length (h ++ o.pending) - length o.ring.buf ≤ last_seq
    → last_seq ≤ length (h ++ o.pending)
    → ((replay o last_seq).1 ≡ record {
      bytes = drop last_seq (h ++ o.pending);
      end_seq = length (h ++ o.pending);
      is_delta = true;
    })
      × (bytes_of (replay o last_seq).0 ≡ o.pending)
      × ((replay o last_seq).2.pending ≡ [])
unfolding replay flush
replay_delta o h last_seq f fits low high =
    let d = delta_lem o.ring (h ++ o.pending) last_seq f.held fits low high in
    (
      rw d (
          ap (λ e. record { bytes = drop last_seq (h ++ o.pending); end_seq = e; is_delta = true })
            (omega (arith, length-drop last_seq (h ++ o.pending)))),
      (flush-Flowing o h f).1,
      refl,
    )

-- Any other client gets the last half mebibyte of the stream, or all that the ring has room for where
-- that is less, and the offset of its end.
pub replay_tail :
    (o : Output) (h : List ℕ) (last_seq : ℕ)
    → Flowing o h
    → length (h ++ o.pending) < 2 ^ 64
    → (last_seq < length (h ++ o.pending) - length o.ring.buf)
      ⊎ (length (h ++ o.pending) < last_seq)
    → (replay o last_seq).1 ≡ record {
      bytes =
          drop (length (h ++ o.pending) - min snapshot_tail (length o.ring.buf)) (h ++ o.pending);
      end_seq = length (h ++ o.pending);
      is_delta = false;
    }
unfolding replay flush
replay_tail o h last_seq f fits out =
    let d = delta_refused o.ring (h ++ o.pending) last_seq f.held fits out in
    let t = (tail_lem o.ring (h ++ o.pending) snapshot_tail f.held).0 in rw (d, t)

-- Appends alone deliver nothing and end with everything pending.
abbrev pub appends_all : List (List ℕ) → List Step
appends_all [] = []
appends_all (p ∷ ps) = Step.appends p ∷ appends_all ps

appends_deliver_nothing : (o : Output) (ps : List (List ℕ)) → (run o (appends_all ps)).0 ≡ []
unfolding run
appends_deliver_nothing o [] = refl
appends_deliver_nothing o (p ∷ ps) = appends_deliver_nothing (append o p).1 ps

same_room :
    (o : Output) (ps : List (List ℕ))
    → length (run o (appends_all ps)).1.ring.buf ≡ length o.ring.buf
unfolding run append
same_room o [] = refl
same_room o (p ∷ ps) = same_room (append o p).1 ps ∙ length-write o.ring p

take-drop : (n : ℕ) (xs ys : List ℕ) → n ≤ length xs → take n xs ++ drop n (xs ++ ys) ≡ xs ++ ys
take-drop zero xs ys l = refl
take-drop (suc n) [] ys l = absurd (omega (arith, l))
take-drop (suc n) (x ∷ xs) ys l = ap (λ zs. x ∷ zs) (take-drop n xs ys (omega (arith, l)))

-- What is appended after a flush is all pending, and the stream of what was delivered is as it was.
appended-Flowing :
    (o : Output) (h : List ℕ) (between : List (List ℕ))
    → Flowing o h
    → length (h ++ o.pending) + length (appended (appends_all between)) < 2 ^ 64
    → let o1 = (run (flush o).1 (appends_all between)).1 in
      Flowing o1 (h ++ o.pending) × (o1.pending ≡ appended (appends_all between))
appended-Flowing o h between f fits =
    let stream = h ++ o.pending in
    let es = appends_all between in
    let (g, _, _) = flush-Flowing o h f in
    let (b, _, w) =
      run-Flowing (flush o).1 stream es g
        (omega (arith, ap length (flushed o), length-append stream (flush o).1.pending)) in
    let none_out = appends_deliver_nothing (flush o).1 between in
    (
      subst (Flowing (run (flush o).1 es).1)
          (ap (λ x. stream ++ bytes_of x) none_out ∙ append-nil stream) w,
      sym (ap (λ x. bytes_of x ++ (run (flush o).1 es).1.pending) none_out)
          ∙ b
          ∙ ap (λ x. x ++ appended es) (flushed o),
    )

-- While a replay holds `flushMu`, other goroutines may append output between its flush and its look at the
-- ring. If the output is Flowing, its stream stays within 64 bits, and the client has the stream up to
-- an offset that was flushed before and that the ring still reaches back to, then the replay gives it
-- the rest of the stream with everything appended in between, and the offset of its end. The later
-- deliveries, whatever the order of later appends and flushes, go on from where the flush ended: with
-- what is still pending they are the output appended in between, once more, and all that comes after.
pub replay_then_live :
    (o : Output) (h : List ℕ) (last_seq : ℕ) (between : List (List ℕ)) (steps : List Step)
    → Flowing o h
    → length (h ++ o.pending) + length (appended (appends_all between)) + length (appended steps)
      < 2 ^ 64
    → length (h ++ o.pending) + length (appended (appends_all between)) - length o.ring.buf
      ≤ last_seq
    → last_seq ≤ length (h ++ o.pending)
    → let stream = h ++ o.pending in
      let missed = appended (appends_all between) in
      let o1 = (run (flush o).1 (appends_all between)).1 in
      let r = replayed o1 last_seq in
      let (live, end) = run o1 steps in
      (take last_seq stream ++ r.bytes ≡ stream ++ missed)
      × (r.end_seq ≡ length (stream ++ missed))
      × (r.is_delta ≡ true)
      × (bytes_of live ++ end.pending ≡ missed ++ appended steps)
      × Contiguous (length stream) live
replay_then_live o h last_seq between steps f fits low high =
    let stream = h ++ o.pending in
    let missed = appended (appends_all between) in
    let o1 = (run (flush o).1 (appends_all between)).1 in
    let (g, p) = appended-Flowing o h between f (omega arith) in
    let whole = length-append stream o1.pending in
    let grown : length (stream ++ o1.pending) ≡ length stream + length missed =
      omega (arith, whole, ap length p) in
    let room = same_room (flush o).1 between in
    let d =
      delta_lem o1.ring (stream ++ o1.pending) last_seq g.held (omega arith)
        (omega (arith, room, ap (λ (x : Ring). length x.buf) (flush-ring o))) (omega arith) in
    let (b, c, _) = run-Flowing o1 stream steps g (omega arith) in
    (
      rw (d, p) (take-drop last_seq stream missed high),
      rw (d, p)
          (omega (arith, length-drop last_seq (stream ++ missed), length-append stream missed)),
      rw d refl,
      b ∙ ap (λ x. x ++ appended steps) p,
      c,
    )
