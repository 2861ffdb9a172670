-- ===== src/Session/Output.antt =====
-- The output path of internal/session/session.go: `emit`, `flush`, `flushLocked` and `Replay`. The part of
-- `emit` under the mutex and a flush are one step each; `flushMu` makes the callbacks come in the order of
-- the flushes. A replay is a flush, and then, with `flushMu` still held but not the mutex, what the ring has. A delivery is a call of OnOutput: the offset of its first byte, and its bytes.
pub mod Delivered
pub mod Replayed
pub mod Tests
use terminal_x.Common.{
  ℕ, ◌+◌, ◌*◌, ◌%◌, ◌^◌, pos, Bool, true, false, Option, none, some, List, [], ◌∷◌, ◌++◌, length,
  leb, nat_beq, if◌then◌else◌,
}
use terminal_x.Session.Ring.{Ring, write, tail, delta}

pub record Output : Type 0 where
  pub ring : Ring
  pub pending : List ℕ
  pub pending_seq : ℕ
  pub timer : Bool
  pub listening : Bool

abbrev pub Delivery : Type 0
Delivery = ℕ × List ℕ

abbrev pub snapshot_tail : ℕ
snapshot_tail = 512 * 2 ^ 10

abbrev pub is_empty : List ℕ → Bool
is_empty [] = true
is_empty (_ ∷ _) = false

-- `emit` under the mutex, and whether the batch is big enough for a flush at once.
unfoldable pub append : Output → List ℕ → Bool × Output
append o p =
    let (ring, start) = write o.ring p in
    let batch = o.pending ++ p in
    (
      leb (256 * 2 ^ 10) (length batch),
      record o {
        ring = ring;
        pending = batch;
        pending_seq = if is_empty o.pending then start else o.pending_seq;
        timer = true;
      },
    )

-- `flushLocked`: the calls of OnOutput, one at most.
unfoldable pub flush : Output → List Delivery × Output
flush o = (
  if is_empty o.pending then [] else if o.listening then (o.pending_seq, o.pending) ∷ [] else [],
  record o { pending = []; timer = false },
)

unfoldable pub emit : Output → List ℕ → List Delivery × Output
emit o p = let (big, o') = append o p in if big then flush o' else ([], o')

pub record Replay : Type 0 where
  pub bytes : List ℕ
  pub end_seq : ℕ
  pub is_delta : Bool

abbrev delta_or_tail : Ring → ℕ → Option (List ℕ) → Replay
delta_or_tail r last_seq (some d) = record {
  bytes = d;
  end_seq = (last_seq + length d) % 2 ^ 64;
  is_delta = true;
}
delta_or_tail r last_seq none =
    let (t, end) = tail r (pos snapshot_tail) in
    record { bytes = t; end_seq = end; is_delta = false }

-- What `send` is given, from the ring as it then is.
abbrev pub replayed : Output → ℕ → Replay
replayed o last_seq = delta_or_tail o.ring last_seq (delta o.ring last_seq)

-- The flush, then what `send` is given, where nothing is appended in between.
unfoldable pub replay : Output → ℕ → List Delivery × Replay × Output
replay o last_seq = let (out, o') = flush o in (out, replayed o' last_seq, o')
