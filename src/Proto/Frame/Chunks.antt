-- ===== src/Proto/Frame/Chunks.antt =====
-- What `Chunk` makes of a payload.
use Prim.Native.Nat.{bit_or}
use native.Mathlib.Decide.{dec_le}
use terminal_x.Common.{
  ℕ, zero, suc, ◌+◌, ◌-◌, ◌^◌, ◌<◌, ◌≤◌, ◌≡◌, refl, ap, ◌∙◌, List, [], ◌∷◌, ◌++◌, Bool, true, false,
  ◌&&◌, ltb, nat_beq, nat_beq_iff, if◌then◌else◌, length, take, drop, length-drop, drop-drop,
  take_all, take-append-drop, arith, append-nil, All, ltb→lt, length-take,
}
use terminal_x.Proto.Frame.Codec.{IsByte, IsFrame}
use mathlib.Core.Path.{subst}
use terminal_x.Proto.Frame.{Frame, max_payload, flag_more, next_seq, chunk_loop, chunk_frame, chunk}

-- A payload of at most `max` bytes is one frame without FlagMore. A longer one is a frame with its
-- first `max` bytes and FlagMore, then the frames of the rest, which get no extra flags and, for
-- FrameOutput, the stream offset advanced by `max`.
pub data IsChunking (max t sid : ℕ) : ℕ → ℕ → List ℕ → List Frame → Type 0 where
  last :
      (seq extra : ℕ) (p : List ℕ)
      → length p ≤ max
      → IsChunking max t sid seq extra p
          (record { type = t; flags = extra; sid = sid; seq = seq; payload = p } ∷ [])
  more :
      (seq extra : ℕ) (p : List ℕ) (fs : List Frame)
      → max < length p
      → IsChunking max t sid (next_seq t seq max) 0 (drop max p) fs
      → IsChunking max t sid seq extra p (
          record {
            type = t;
            flags = bit_or extra flag_more;
            sid = sid;
            seq = seq;
            payload = take max p;
          }
          ∷ fs)

passes_upto : (ℕ → Bool) → ℕ → Bool
passes_upto test zero = true
passes_upto test (suc top) = passes_upto test top && test top

passes_upto-lt :
    (test : ℕ → Bool) (top byte : ℕ) → byte < top → passes_upto test top ≡ true → test byte ≡ true
unfolding passes_upto
passes_upto-lt test zero byte lt h = absurd (omega arith)
passes_upto-lt test (suc top) byte lt h = ground (arith, passes_upto-lt test top byte)

zero_or_table : passes_upto (λ x. nat_beq (bit_or 0 x) x) 256 ≡ true
unfolding passes_upto
zero_or_table = refl

zero_or : (x : ℕ) → x < 256 → bit_or 0 x ≡ x
zero_or x h = (nat_beq_iff _ x).0 (passes_upto-lt _ 256 x h zero_or_table)

module _ (max t sid : ℕ) (p : List ℕ) (extra : ℕ) (small : extra < 256) where
  abbrev extra_at : ℕ → ℕ
  extra_at off = if nat_beq off 0 then extra else 0

  loop_end : (fuel seq : ℕ) → chunk_loop fuel max t sid p extra (length p) seq ≡ []
  unfolding chunk_loop
  loop_end zero seq = refl
  loop_end (suc fuel) seq = ground arith

  loop_last :
      (fuel off seq : ℕ)
      → off < length p
      → length p ≤ off + max
      → chunk_loop (suc fuel) max t sid p extra off seq
        ≡ record { type = t; flags = extra_at off; sid = sid; seq = seq; payload = drop off p } ∷ []
  unfolding chunk_loop chunk_frame
  loop_last fuel off seq h k = ground (
    arith,
    zero_or extra small,
    loop_end fuel (next_seq t seq (length p - off)),
    take_all (length p - off) (drop off p),
    length-drop off p,
  )

  loop_more :
      (fuel off seq : ℕ)
      → off + max < length p
      → chunk_loop (suc fuel) max t sid p extra off seq
        ≡ record {
          type = t;
          flags = bit_or (extra_at off) flag_more;
          sid = sid;
          seq = seq;
          payload = take max (drop off p);
        }
          ∷ chunk_loop fuel max t sid p extra (off + max) (next_seq t seq max)
  unfolding chunk_loop chunk_frame
  loop_more fuel off seq h =
      let e : off + max - off ≡ max = omega arith in ground (arith, zero_or extra small)

  chunk_loop-IsChunking :
      (fuel off seq : ℕ)
      → 0 < max
      → off < length p
      → length p - off ≤ fuel
      → IsChunking max t sid seq
          (extra_at off)
          (drop off p)
          (chunk_loop fuel max t sid p extra off seq)
  chunk_loop-IsChunking zero off seq m h k = absurd (omega arith)
  chunk_loop-IsChunking (suc fuel) off seq m h k = elim (dec_le (length p) (off + max)) [
    | yes l ↦
        rw (loop_last fuel off seq h l)
          (last seq (extra_at off) (drop off p) (omega (arith, length-drop off p)))
    | no g ↦ rw (loop_more fuel off seq (omega arith)) (
        more seq (extra_at off) (drop off p) _ (omega (arith, length-drop off p)) (
          rw drop-drop (
            rest (
              chunk_loop-IsChunking fuel (off + max) (next_seq t seq max) m (omega arith)
                (omega arith)))))
  ]
    where
      no_extra : extra_at (off + max) ≡ 0
      no_extra = ground arith

      rest :
          IsChunking max t sid
            (next_seq t seq max)
            (extra_at (off + max))
            (drop (off + max) p)
            (chunk_loop fuel max t sid p extra (off + max) (next_seq t seq max))
          → IsChunking max t sid
              (next_seq t seq max)
              0
              (drop (off + max) p)
              (chunk_loop fuel max t sid p extra (off + max) (next_seq t seq max))
      rest =
          subst
            (λ e.
              IsChunking max t sid (next_seq t seq max) e (drop (off + max) p)
                (chunk_loop fuel max t sid p extra (off + max) (next_seq t seq max)))
            no_extra

chunk_nonempty :
    (t sid seq x : ℕ) (p : List ℕ) (extra : ℕ)
    → chunk t sid seq (x ∷ p) extra
      ≡ chunk_loop (length (x ∷ p)) max_payload t sid (x ∷ p) extra 0 seq
unfolding chunk
chunk_nonempty t sid seq x p extra =
    let e : nat_beq (suc (length p)) 0 ≡ false = ground arith in rw e

-- `Chunk` splits any payload at every 65535 bytes: the first frame has the extra flags, every frame
-- but the last is full and has FlagMore, the last has what is left, and the offsets of FrameOutput
-- frames follow one another, while other types repeat the offset.
pub chunk-IsChunking :
    (t sid seq : ℕ) (p : List ℕ) (extra : ℕ)
    → extra < 256
    → IsChunking max_payload t sid seq extra p (chunk t sid seq p extra)
unfolding chunk
chunk-IsChunking t sid seq [] extra h = last seq extra [] (omega arith)
chunk-IsChunking t sid seq (x ∷ p) extra h = rw chunk_nonempty (
    chunk_loop-IsChunking max_payload t sid (x ∷ p) extra h (length (x ∷ p)) 0 seq (omega arith)
      (omega arith) (omega arith))

-- The payloads of frames, one after the other.
abbrev pub payloads : List Frame → List ℕ
payloads [] = []
payloads (f ∷ fs) = f.payload ++ payloads fs

IsChunking-payloads :
    {max t sid seq extra : ℕ} {p : List ℕ} {fs : List Frame}
    → IsChunking max t sid seq extra p fs
    → payloads fs ≡ p
IsChunking-payloads (last seq extra p h) = append-nil p
IsChunking-payloads {max} (more seq extra p fs h c) =
    ap (◌++◌ (take max p)) (IsChunking-payloads c) ∙ take-append-drop max p

-- Whatever the type, offset and flags, the payloads of the chunks put together are the payload.
pub payloads-chunk :
    (t sid seq : ℕ) (p : List ℕ) (extra : ℕ) → extra < 256 → payloads (chunk t sid seq p extra) ≡ p
payloads-chunk t sid seq p extra h = IsChunking-payloads (chunk-IsChunking t sid seq p extra h)

or_more_byte_table : passes_upto (λ x. ltb (bit_or x 1) 256) 256 ≡ true
unfolding passes_upto
or_more_byte_table = refl

or_more_byte : (x : ℕ) → x < 256 → bit_or x flag_more < 256
or_more_byte x h = ltb→lt _ _ (passes_upto-lt _ 256 x h or_more_byte_table)

All-take : (P : ℕ → Type 0) (n : ℕ) (xs : List ℕ) → All P xs → All P (take n xs)
All-take P zero xs h = tt
All-take P (suc n) [] h = tt
All-take P (suc n) (x ∷ xs) h = (h.0, All-take P n xs h.1)

All-drop : (P : ℕ → Type 0) (n : ℕ) (xs : List ℕ) → All P xs → All P (drop n xs)
All-drop P zero xs h = h
All-drop P (suc n) [] h = tt
All-drop P (suc n) (x ∷ xs) h = All-drop P n xs h.1

next_seq-lt : (t seq n : ℕ) → seq < 2 ^ 64 → next_seq t seq n < 2 ^ 64
next_seq-lt t seq n h = ground arith

IsChunking-IsFrame :
    {t sid seq extra : ℕ} {p : List ℕ} {fs : List Frame}
    → IsChunking max_payload t sid seq extra p fs
    → t < 256
    → sid < 2 ^ 32
    → seq < 2 ^ 64
    → extra < 256
    → All IsByte p
    → All IsFrame fs
IsChunking-IsFrame (last seq extra p h) ht hs hq he hp = (
  record {
    type_byte = ht;
    flags_byte = he;
    sid_word = hs;
    seq_word = hq;
    payload_bytes = hp;
    payload_fits = h;
  },
  tt,
)
IsChunking-IsFrame {t} (more seq extra p fs h c) ht hs hq he hp = (
  record {
    type_byte = ht;
    flags_byte = or_more_byte extra he;
    sid_word = hs;
    seq_word = hq;
    payload_bytes = All-take IsByte max_payload p hp;
    payload_fits = omega (arith, length-take max_payload p);
  },
  IsChunking-IsFrame c ht hs (next_seq-lt t seq max_payload hq) (omega arith)
      (All-drop IsByte max_payload p hp),
)

-- Every chunk of a payload of bytes is a frame that `Marshal` encodes and `Unmarshal` gives back.
pub chunk-IsFrame :
    (t sid seq : ℕ) (p : List ℕ) (extra : ℕ)
    → t < 256
    → sid < 2 ^ 32
    → seq < 2 ^ 64
    → extra < 256
    → All IsByte p
    → All IsFrame (chunk t sid seq p extra)
chunk-IsFrame t sid seq p extra ht hs hq he hp =
    IsChunking-IsFrame (chunk-IsChunking t sid seq p extra he) ht hs hq he hp
