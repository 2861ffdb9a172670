-- ===== src/Proto/Frame/Payloads.antt =====
-- The fixed payloads: FrameResize and FrameEOF.
use terminal_x.Common.{ℤ, ℕ, ◌^◌, ◌<◌, ◌≡◌, ◌≢◌, ◌∙◌, ap, List, length, arith}
use terminal_x.Proto.Frame.{
  ok, err, bad_payload, resize_payload, parse_resize, eof_payload, parse_eof,
}
use terminal_x.Proto.Frame.Words.{
  IsInt32, u32_of_int32, int32_of_u32, bytes_u16, bytes_u32, int32_of_u32-u32_of_int32,
}

-- A terminal size of two uint16 survives encoding and parsing, and anything but 4 bytes is refused.
pub parse_resize-resize_payload :
    (cols rows : ℕ) (p : List ℕ)
    → cols < 2 ^ 16
    → rows < 2 ^ 16
    → length p ≢ 4
    → (parse_resize (resize_payload cols rows) ≡ ok (cols, rows))
      × (parse_resize p ≡ err bad_payload)
unfolding parse_resize resize_payload
parse_resize-resize_payload cols rows p h k ne =
    (ground (arith, bytes_u16 cols, bytes_u16 rows), ground arith)

u32_of_int32-lt : (c : ℤ) → u32_of_int32 c < 2 ^ 32
unfolding u32_of_int32
u32_of_int32-lt c = ground arith

-- An exit code survives encoding and parsing, negative ones too, and anything but 4 bytes is refused.
pub parse_eof-eof_payload :
    (code : ℤ) (p : List ℕ)
    → IsInt32 code
    → length p ≢ 4
    → (parse_eof (eof_payload code) ≡ ok code) × (parse_eof p ≡ err bad_payload)
unfolding parse_eof eof_payload
parse_eof-eof_payload code p h ne = (
  ap ok (
      ap int32_of_u32 (bytes_u32 (u32_of_int32 code) (u32_of_int32-lt code))
      ∙ int32_of_u32-u32_of_int32 code h),
  ground arith,
)
