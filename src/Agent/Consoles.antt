-- ===== src/Agent/Consoles.antt =====
-- From the agent through the relay to a console: what a console sees of the frames of an attach.
use terminal_x.Common.{
  ℕ, ◌-◌, ◌/◌, ◌%◌, ◌^◌, ◌<◌, ◌≤◌, ◌≡◌, ◌⊎◌, refl, ap, ◌∙◌, inl, inr, Bool, true, false, not, some,
  List, [], ◌∷◌, ◌++◌, append-nil, append_assoc, take-append-drop, length, drop, nat_beq,
  if◌then◌else◌, arith, nat_key,
}
use terminal_x.Common.Maps.{lookup}
use terminal_x.Proto.Envelope.{Msg}
use terminal_x.Proto.Frame as frame
use terminal_x.Proto.Frame.{
  Frame, chunk, marshal, frame_snapshot, frame_output, flag_more, flag_reset, max_payload,
}
use terminal_x.Proto.Frame.Chunks.{IsChunking, chunk-IsChunking, last, more}
use terminal_x.Relay.Hub.Frames.{has_more}
use terminal_x.Relay.Hub.Replay.{sees, waits}
use terminal_x.Session.Output.{Delivery, replay}
use terminal_x.Session.Output.Delivered.{Flowing, bytes_of}
use terminal_x.Session.Output.Replayed.{replay_delta}
use terminal_x.Agent.{Agent, Live, Effect, handle_attach, snapshot, frames, outputs, on_output}
use terminal_x.Agent.Attaching.{sent, handle_attach_lem, frames-sent, sent-frames}

abbrev pub more_of : Frame → Bool
more_of f = not (nat_beq (f.flags / flag_more % 2) 0)

-- The flag that the relay reads in the bytes is that of the frame.
has_more-marshal : (f : Frame) (b : List ℕ) → marshal f ≡ frame.Result.ok b → has_more b ≡ more_of f
unfolding marshal
has_more-marshal f b e = ground (arith, e)

-- What a console that waits, or does not, sees of frames that the relay routes to it one after the other, by
-- the relay's `sees` and `waits`: the bytes, and whether it waits afterwards.
unfoldable pub watch : Bool → List Frame → List ℕ × Bool
watch pending [] = ([], pending)
watch pending (f ∷ fs) =
    let (rest, end) = watch (waits pending f.type (more_of f)) fs in
    (if sees pending f.type then f.payload ++ rest else rest, end)

watch-append :
    (pending : Bool) (fs gs : List Frame)
    → watch pending (fs ++ gs) ≡ (
      (watch pending fs).0 ++ (watch (watch pending fs).1 gs).0,
      (watch (watch pending fs).1 gs).1,
    )
unfolding watch
watch-append pending [] gs = refl
watch-append pending (f ∷ fs) gs =
    let ih = watch-append (waits pending f.type (more_of f)) fs gs in
    ground (
      arith,
      ih,
      append_assoc f.payload (watch (waits pending f.type (more_of f)) fs).0
          (watch (watch (waits pending f.type (more_of f)) fs).1 gs).0,
    )

-- A console that waits sees a snapshot's payload and then waits no more; another sees none of it.
watch-snapshot :
    {max sid seq extra : ℕ} {p : List ℕ} {fs : List Frame}
    → IsChunking max frame_snapshot sid seq extra p fs
    → (extra ≡ 0) ⊎ (extra ≡ flag_reset)
    → (watch true fs ≡ (p, false)) × (watch false fs ≡ ([], false))
unfolding watch
watch-snapshot (last seq extra p h) (inl e) = (rw e (ap (λ x. (x, false)) (append-nil p)), refl)
watch-snapshot (last seq extra p h) (inr e) = (rw e (ap (λ x. (x, false)) (append-nil p)), refl)
watch-snapshot {max} (more seq extra p fs h c) (inl e) =
    let (seen, hidden) = watch-snapshot c (inl refl) in
    (rw (e, seen) (ap (λ x. (x, false)) (take-append-drop max p)), rw hidden)
watch-snapshot {max} (more seq extra p fs h c) (inr e) =
    let (seen, hidden) = watch-snapshot c (inl refl) in
    (rw (e, seen) (ap (λ x. (x, false)) (take-append-drop max p)), rw hidden)

-- A console that waits sees no output, and another all of it.
watch-output :
    {max sid seq extra : ℕ} {p : List ℕ} {fs : List Frame}
    → IsChunking max frame_output sid seq extra p fs
    → (watch true fs ≡ ([], true)) × (watch false fs ≡ (p, false))
unfolding watch
watch-output (last seq extra p h) = (refl, ap (λ x. (x, false)) (append-nil p))
watch-output {max} (more seq extra p fs h c) =
    let (hidden, seen) = watch-output c in
    (rw hidden, rw seen (ap (λ x. (x, false)) (take-append-drop max p)))

watch-outputs :
    (sid : ℕ) (ds : List Delivery)
    → (watch true (sent (outputs sid ds)) ≡ ([], true))
      × (watch false (sent (outputs sid ds)) ≡ (bytes_of ds, false))
unfolding watch on_output
watch-outputs sid [] = (refl, refl)
watch-outputs sid ((seq, p) ∷ ds) =
    let fs = chunk frame_output sid seq p 0 in
    let (hidden, seen) = watch-output (chunk-IsChunking frame_output sid seq p 0 (omega arith)) in
    let (rest_hidden, rest_seen) = watch-outputs sid ds in
    (
      ap (watch true) (frames-sent fs (outputs sid ds))
          ∙ (watch-append true fs (sent (outputs sid ds)) ∙ rw (hidden, rest_hidden)),
      ap (watch false) (frames-sent fs (outputs sid ds))
          ∙ (watch-append false fs (sent (outputs sid ds)) ∙ rw (seen, rest_seen)),
    )

-- If a session's output is Flowing and its stream within 64 bits, then of the frames of an attach with an
-- offset that the session's ring still reaches back to, the console that attaches, which waits, sees
-- exactly the stream from its offset on and then waits no more, and a console that was attached before
-- sees exactly the output that it did not have yet.
pub watch-attach :
    (m : Msg) (a : Agent) (l : Live) (h : List ℕ)
    → lookup m.sid a.sessions ≡ some l
    → Flowing l.output h
    → length (h ++ l.output.pending) < 2 ^ 64
    → length (h ++ l.output.pending) - length l.output.ring.buf ≤ m.last_seq
    → m.last_seq ≤ length (h ++ l.output.pending)
    → (watch true (sent (handle_attach m a).0) ≡ (drop m.last_seq (h ++ l.output.pending), false))
      × (watch false (sent (handle_attach m a).0) ≡ (l.output.pending, false))
watch-attach m a l h known f fits low high =
    let (_, chunks, all) = handle_attach_lem m a l h known f fits low high in
    let (_, delivered, _) = replay_delta l.output h m.last_seq f fits low high in
    let ds = (replay l.output m.last_seq).0 in
    let fs = snapshot m.sid (replay l.output m.last_seq).1 in
    let (hidden, seen) = watch-outputs m.sid ds in
    let (snapped, quiet) = watch-snapshot chunks (inl refl) in
    let split : sent (handle_attach m a).0 ≡ sent (outputs m.sid ds) ++ fs =
      ap sent all
      ∙ (sent-append (outputs m.sid ds) (frames fs)
          ∙ ap (λ x. sent (outputs m.sid ds) ++ x) (sent-frames fs)) in
    (
      ap (watch true) split
          ∙ (watch-append true (sent (outputs m.sid ds)) fs ∙ rw (hidden, snapped)),
      ap (watch false) split
          ∙ (watch-append false (sent (outputs m.sid ds)) fs
              ∙ (rw (seen, quiet) (ap (λ x. (x, false)) (append-nil (bytes_of ds) ∙ delivered)))),
    )
  where
    sent-append : (es ds : List Effect) → sent (es ++ ds) ≡ sent es ++ sent ds
    sent-append [] ds = refl
    sent-append (Effect.sends_frame f ∷ es) ds = ap (λ x. f ∷ x) (sent-append es ds)
    sent-append (Effect.sends m ∷ es) ds = sent-append es ds
    sent-append (Effect.writes p bytes ∷ es) ds = sent-append es ds
    sent-append (Effect.sizes p cols rows ∷ es) ds = sent-append es ds
    sent-append (Effect.stops p ∷ es) ds = sent-append es ds
    sent-append (Effect.restarts p ∷ es) ds = sent-append es ds
