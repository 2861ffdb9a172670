-- ===== src/Agent/Attaching.antt =====
-- What a console that attaches is sent.
use terminal_x.Common.{
  ℕ, ◌-◌, ◌^◌, ◌<◌, ◌≤◌, ◌≡◌, refl, sym, ap, ap₂, ◌∙◌, some, List, [], ◌∷◌, ◌++◌, append_assoc,
  length, drop, arith, nat_key,
}
use terminal_x.Common.Maps.{lookup}
use terminal_x.Proto.Envelope.{Msg}
use terminal_x.Proto.Frame.{Frame, chunk, frame_snapshot, frame_output, max_payload}
use terminal_x.Proto.Frame.Chunks.{IsChunking, chunk-IsChunking, payloads, payloads-chunk}
use terminal_x.Session.Output.{Delivery, replay}
use terminal_x.Session.Output.Delivered.{Flowing, bytes_of}
use terminal_x.Session.Output.Replayed.{replay_delta}
use terminal_x.Agent.{Agent, Live, Effect, handle_attach, snapshot, frames, outputs, on_output}

-- The frames of some type among the effects.
abbrev pub sent : List Effect → List Frame
sent [] = []
sent (Effect.sends_frame f ∷ es) = f ∷ sent es
sent (_ ∷ es) = sent es

pub frames-sent : (fs : List Frame) (es : List Effect) → sent (frames fs ++ es) ≡ fs ++ sent es
frames-sent [] es = refl
frames-sent (f ∷ fs) es = ap (λ x. f ∷ x) (frames-sent fs es)

pub sent-frames : (fs : List Frame) → sent (frames fs) ≡ fs
sent-frames [] = refl
sent-frames (f ∷ fs) = ap (λ x. f ∷ x) (sent-frames fs)

payloads-append : (fs gs : List Frame) → payloads (fs ++ gs) ≡ payloads fs ++ payloads gs
payloads-append [] gs = refl
payloads-append (f ∷ fs) gs =
    ap (λ x. f.payload ++ x) (payloads-append fs gs)
    ∙ sym (append_assoc f.payload (payloads fs) (payloads gs))

outputs-payloads :
    (sid : ℕ) (ds : List Delivery) (es : List Effect)
    → payloads (sent (outputs sid ds ++ es)) ≡ bytes_of ds ++ payloads (sent es)
unfolding on_output
outputs-payloads sid [] es = refl
outputs-payloads sid ((seq, p) ∷ ds) es =
    let fs = chunk frame_output sid seq p 0 in
    ap (λ x. payloads (sent x)) (append_assoc (frames fs) (outputs sid ds) es)
    ∙ (ap payloads (frames-sent fs (outputs sid ds ++ es))
        ∙ (payloads-append fs (sent (outputs sid ds ++ es))
            ∙ (ap₂ (λ x y. x ++ y) (payloads-chunk frame_output sid seq p 0 (omega arith))
                  (outputs-payloads sid ds es)
                ∙ sym (append_assoc p (bytes_of ds) (payloads (sent es))))))

-- If a session's output is Flowing and its stream within 64 bits, a console that attaches with an offset that
-- the session's ring still reaches back to is sent the pending
-- output as output and then, in snapshot frames of which exactly the last is without the flag for more,
-- the stream from that offset to its end, none of them with the flag for a reset.
pub handle_attach_lem :
    (m : Msg) (a : Agent) (l : Live) (h : List ℕ)
    → lookup m.sid a.sessions ≡ some l
    → Flowing l.output h
    → length (h ++ l.output.pending) < 2 ^ 64
    → length (h ++ l.output.pending) - length l.output.ring.buf ≤ m.last_seq
    → m.last_seq ≤ length (h ++ l.output.pending)
    → let (_, r, _) = replay l.output m.last_seq in
      (payloads (sent (handle_attach m a).0)
        ≡ l.output.pending ++ drop m.last_seq (h ++ l.output.pending))
      × IsChunking max_payload frame_snapshot m.sid
          (length (h ++ l.output.pending))
          0
          (drop m.last_seq (h ++ l.output.pending))
          (snapshot m.sid r)
      × ((handle_attach m a).0
          ≡ outputs m.sid (replay l.output m.last_seq).0 ++ frames (snapshot m.sid r))
unfolding handle_attach
handle_attach_lem m a l h known f fits low high =
    let stream = h ++ l.output.pending in
    let (r, delivered, _) = replay_delta l.output h m.last_seq f fits low high in
    let end = length stream in
    let all : (handle_attach m a).0
        ≡ outputs m.sid (replay l.output m.last_seq).0
          ++ frames (snapshot m.sid (replay l.output m.last_seq).1) =
      rw (known, handle_attach) in
    let snapped : payloads (sent (frames (snapshot m.sid (replay l.output m.last_seq).1)))
        ≡ drop m.last_seq stream =
      ap payloads (sent-frames (snapshot m.sid (replay l.output m.last_seq).1))
      ∙ rw r (payloads-chunk frame_snapshot m.sid end (drop m.last_seq stream) 0 (omega arith)) in
    (
      ap (λ x. payloads (sent x)) all
          ∙ (outputs-payloads m.sid (replay l.output m.last_seq).0
                (frames (snapshot m.sid (replay l.output m.last_seq).1))
              ∙ ap₂ (λ x y. x ++ y) delivered snapped),
      rw r (chunk-IsChunking frame_snapshot m.sid end (drop m.last_seq stream) 0 (omega arith)),
      all,
    )
