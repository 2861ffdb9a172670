-- ===== src/Proto/Frame/Codec.antt =====
-- What `Frame.Marshal`, `Unmarshal` and `PeekHeader` promise one another.
use terminal_x.Common.{
  ℕ, ◌+◌, ◌%◌, ◌^◌, ◌<◌, ◌≤◌, ◌≡◌, ◌↔◌, List, ◌∷◌, ◌++◌, length, take, drop, All, arith,
}
use terminal_x.Proto.Frame.{
  Frame, Result, ok, err, payload_big, version, header_size, max_payload, marshal, unmarshal,
  peek_header,
}
use terminal_x.Proto.Frame.Words.{put_u16, put_u32, put_u64, bytes_u16, bytes_u32, bytes_u64}

abbrev pub IsByte : ℕ → Type 0
IsByte x = x < 256

-- The ranges of the Go types of the fields, and the limit on a payload.
pub record IsFrame (f : Frame) : Type 0 where
  pub type_byte : f.type < 256
  pub flags_byte : f.flags < 256
  pub sid_word : f.sid < 2 ^ 32
  pub seq_word : f.seq < 2 ^ 64
  pub payload_bytes : All IsByte f.payload
  pub payload_fits : length f.payload ≤ max_payload

-- The bytes of an encoded frame.
wire : Frame → List ℕ
unfolding put_u16 put_u32 put_u64
wire f =
    version
    ∷ f.type
    ∷ f.flags
    ∷ 0
    ∷ put_u32 f.sid (put_u64 f.seq (put_u16 (length f.payload % 2 ^ 16) f.payload))

marshal-wire : (f : Frame) → length f.payload ≤ max_payload → marshal f ≡ ok (wire f)
unfolding marshal wire
marshal-wire f h = ground arith

unmarshal-wire : (f : Frame) → IsFrame f → unmarshal (wire f) ≡ ok f
unfolding unmarshal wire
unmarshal-wire f v = ground (arith, bytes_u32 f.sid, bytes_u64 f.seq, bytes_u16 (length f.payload))

-- A frame in range encodes, to 18 bytes and the payload, all of them bytes, and decoding them gives
-- back the frame.
pub unmarshal-marshal :
    (f : Frame)
    → IsFrame f
    → (b : List ℕ) × (marshal f ≡ ok b)
      × (unmarshal b ≡ ok f)
      × All IsByte b
      × (length b ≡ header_size + length f.payload)
unfolding wire put_u16 put_u32 put_u64
unmarshal-marshal f v =
    (wire f, marshal-wire f v.payload_fits, unmarshal-wire f v, ground arith, omega arith)

-- Encoding fails exactly on a payload over 65535 bytes, whatever the other fields.
pub marshal_fails : (f : Frame) → (marshal f ≡ err payload_big) ↔ (max_payload < length f.payload)
unfolding marshal
marshal_fails f = ground arith

abbrev pub header_of : Result Frame → Result (ℕ × ℕ)
header_of (ok f) = ok (f.type, f.sid)
header_of (err e) = err e

-- On any bytes, `PeekHeader` returns the type and sid of the frame that `Unmarshal` decodes, and
-- the same error where that fails.
pub peek_header-unmarshal : (b : List ℕ) → peek_header b ≡ header_of (unmarshal b)
unfolding peek_header unmarshal
peek_header-unmarshal b = ground arith

-- Bytes that decode to a frame are the encoding of that frame, but for the reserved byte, which
-- encoding sets to 0 and decoding does not look at.
pub marshal-unmarshal :
    (b : List ℕ) (f : Frame)
    → All IsByte b
    → unmarshal b ≡ ok f
    → marshal f ≡ ok (take 3 b ++ (0 ∷ drop 4 b))
unfolding unmarshal marshal
marshal-unmarshal
      (b0 ∷ b1 ∷ b2 ∷ b3 ∷ b4 ∷ b5 ∷ b6 ∷ b7 ∷ b8 ∷ b9 ∷ b10 ∷ b11 ∷ b12 ∷ b13 ∷ b14 ∷ b15 ∷ b16
        ∷ b17 ∷ rest)
      f v h =
    ground arith
marshal-unmarshal _ f v h = ground arith
