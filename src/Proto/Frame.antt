-- ===== src/Proto/Frame.antt =====
-- internal/proto/frame.go: the binary data plane. A byte is a number below 256; a Go function that
-- returns (T, error) returns a `Result`. encoding/binary's big-endian accessors are written out.
pub mod Words
pub mod Codec
pub mod Chunks
pub mod Payloads
mod Tests
use Prim.Native.Nat.{bit_or}
use terminal_x.Common.{
  ℕ, zero, suc, ◌+◌, ◌-◌, ◌%◌, ◌^◌, List, [], ◌∷◌, ◌++◌, ltb, nat_beq, not, if◌then◌else◌, length,
  get_or, take, drop, ℤ,
}
use Words.{put_u16, put_u32, put_u64, get_u16, get_u32, get_u64, u32_of_int32, int32_of_u32}

pub data FrameError : Type 0 where
  short version_mismatch length_mismatch payload_big bad_payload : FrameError

pub data Result {ℓ} (A : Type ℓ) : Type ℓ where
  ok : A → Result A
  err : FrameError → Result A

abbrev pub version : ℕ
version = 1

abbrev pub header_size : ℕ
header_size = 18

abbrev pub max_payload : ℕ
max_payload = 65535

-- FrameType
abbrev pub frame_output : ℕ
frame_output = 1

abbrev pub frame_input : ℕ
frame_input = 2

abbrev pub frame_resize : ℕ
frame_resize = 3

abbrev pub frame_snapshot : ℕ
frame_snapshot = 4

abbrev pub frame_eof : ℕ
frame_eof = 5

abbrev pub frame_ack : ℕ
frame_ack = 6

abbrev pub flag_more : ℕ
flag_more = 1

abbrev pub flag_reset : ℕ
flag_reset = 2

pub record Frame : Type 0 where
  pub type : ℕ
  pub flags : ℕ
  pub sid : ℕ
  pub seq : ℕ
  pub payload : List ℕ

-- The header bytes are written in order; `uint16(len)` cannot wrap behind the guard.
unfoldable pub marshal : Frame → Result (List ℕ)
unfolding put_u16 put_u32 put_u64
marshal f =
    if ltb max_payload (length f.payload)
    then err payload_big
    else ok (
        version
        ∷ f.type
        ∷ f.flags
        ∷ 0
        ∷ put_u32 f.sid (put_u64 f.seq (put_u16 (length f.payload % 2 ^ 16) f.payload)))

unfoldable pub unmarshal : List ℕ → Result Frame
unfolding get_u16 get_u32 get_u64
unmarshal b =
    if ltb (length b) header_size
    then err short
    else if not (nat_beq (get_or b 0 0) version)
    then err version_mismatch
    else if not (nat_beq (length b) (header_size + get_u16 b 16))
    then err length_mismatch
    else ok (record {
      type = get_or b 1 0;
      flags = get_or b 2 0;
      sid = get_u32 b 4;
      seq = get_u64 b 8;
      payload = drop header_size b;
    })

unfoldable pub peek_header : List ℕ → Result (ℕ × ℕ)
unfolding get_u16 get_u32
peek_header b =
    if ltb (length b) header_size
    then err short
    else if not (nat_beq (get_or b 0 0) version)
    then err version_mismatch
    else if not (nat_beq (length b) (header_size + get_u16 b 16))
    then err length_mismatch
    else ok (get_or b 1 0, get_u32 b 4)

-- The loop of `Chunk` from offset `off`, for any limit `max` on a payload; the fuel is spent one a
-- round, and a round takes at least one byte.
chunk_frame : ℕ → ℕ → List ℕ → ℕ → ℕ → ℕ → ℕ → Frame
chunk_frame t sid payload extra off end seq = record {
  type = t;
  flags = if ltb end (length payload) then bit_or first flag_more else first;
  sid = sid;
  seq = seq;
  payload = take (end - off) (drop off payload);
}
  where
    first : ℕ
    first = if nat_beq off 0 then bit_or 0 extra else 0

abbrev pub chunk_end : ℕ → List ℕ → ℕ → ℕ
chunk_end max payload off = if ltb (length payload) (off + max) then length payload else off + max

abbrev pub next_seq : ℕ → ℕ → ℕ → ℕ
next_seq t seq n = if nat_beq t frame_output then (seq + n) % 2 ^ 64 else seq

chunk_loop : ℕ → ℕ → ℕ → ℕ → List ℕ → ℕ → ℕ → ℕ → List Frame
chunk_loop zero max t sid payload extra off seq = []
chunk_loop (suc fuel) max t sid payload extra off seq =
    let end = chunk_end max payload off in
    let rest = chunk_loop fuel max t sid payload extra end (next_seq t seq (end - off)) in
    if ltb off (length payload) then chunk_frame t sid payload extra off end seq ∷ rest else []

unfoldable pub chunk : ℕ → ℕ → ℕ → List ℕ → ℕ → List Frame
unfolding chunk_loop chunk_frame
chunk t sid seq payload extra =
    if nat_beq (length payload) 0
    then record { type = t; flags = extra; sid = sid; seq = seq; payload = [] } ∷ []
    else chunk_loop (length payload) max_payload t sid payload extra 0 seq

unfoldable pub resize_payload : ℕ → ℕ → List ℕ
unfolding put_u16
resize_payload cols rows = put_u16 cols (put_u16 rows [])

unfoldable pub parse_resize : List ℕ → Result (ℕ × ℕ)
unfolding get_u16
parse_resize p =
    if not (nat_beq (length p) 4) then err bad_payload else ok (get_u16 p 0, get_u16 p 2)

unfoldable pub eof_payload : ℤ → List ℕ
unfolding put_u32
eof_payload code = put_u32 (u32_of_int32 code) []

unfoldable pub parse_eof : List ℕ → Result ℤ
unfolding get_u32
parse_eof p =
    if not (nat_beq (length p) 4) then err bad_payload else ok (int32_of_u32 (get_u32 p 0))
