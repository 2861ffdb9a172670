-- ===== src/Agent/Acks.antt =====
-- The offsets that the relay has acknowledged.
use terminal_x.Common.{
  ℕ, ◌≡◌, refl, inl, inr, false, ◌&&◌, Option, none, some, List, [], ltb, nat_beq, nat_beq_iff,
  if◌then◌else◌, arith, Bool-cases, Option-cases, nat_key,
}
use terminal_x.Common.Maps.{lookup, lookup-insert}
use terminal_x.Proto.Frame as frame
use terminal_x.Proto.Frame.{Frame, parse_resize, frame_input, frame_resize, frame_ack}
use terminal_x.Agent.{Agent, Live, Effect}
use terminal_x.Agent.Messages.{handle_frame, ack_of, resized}

-- The offset of an acknowledgement, if it is one for that session.
abbrev pub acknowledged : Frame → ℕ → Option ℕ
acknowledged f j = if nat_beq f.type frame_ack && nat_beq f.sid j then some f.seq else none

abbrev pub raised : ℕ → Option ℕ → ℕ
raised old none = old
raised old (some new) = if ltb old new then new else old

input-acks :
    (f : Frame) (a : Agent) → nat_beq f.type frame_ack ≡ false → (handle_frame f a).1.acks ≡ a.acks
unfolding handle_frame
input-acks f a e = elim (Bool-cases (nat_beq f.type frame_input)) [
  | inl i ↦
      rw i (elim (Option-cases (lookup f.sid a.sessions)) [ inl n ↦ rw n | inr (l, h) ↦ rw h ])
  | inr i ↦ rw i (elim (Bool-cases (nat_beq f.type frame_resize)) [
    | inl r ↦ rw r (elim (Option-cases (lookup f.sid a.sessions)) [
      | inl n ↦ rw n
      | inr (l, h) ↦ rw h (parsed f l a (parse_resize f.payload))
    ])
    | inr r ↦ rw (r, e)
  ])
]
  where
    parsed :
        (f : Frame) (l : Live) (a : Agent) (p : frame.Result (ℕ × ℕ))
        → (elim p as (λ _. List Effect × Agent) [
          | frame.Result.err _ ↦ ([], a)
          | frame.Result.ok (cols, rows) ↦ resized f.sid l cols rows a
        ]).1.acks
          ≡ a.acks
    parsed f l a (frame.Result.err _) = refl
    parsed f l a (frame.Result.ok (cols, rows)) = refl

ack-acks :
    (f : Frame) (a : Agent) (j : ℕ)
    → f.type ≡ frame_ack
    → ack_of (lookup j (handle_frame f a).1.acks)
      ≡ raised (ack_of (lookup j a.acks)) (acknowledged f j)
unfolding handle_frame
ack-acks f a j e = rw e (ground (arith, nat_beq_iff f.sid j, lookup-insert j f.sid f.seq a.acks))

-- The acknowledged offset of a session only changes by an acknowledgement for it, which raises it to the
-- frame's offset if that is greater.
pub handle_frame-acks :
    (f : Frame) (a : Agent) (j : ℕ)
    → ack_of (lookup j (handle_frame f a).1.acks)
      ≡ raised (ack_of (lookup j a.acks)) (acknowledged f j)
handle_frame-acks f a j = elim (Bool-cases (nat_beq f.type frame_ack)) [
  | inr e ↦ rw (input-acks f a e, e)
  | inl e ↦ ack-acks f a j ((nat_beq_iff f.type frame_ack).0 e)
]
