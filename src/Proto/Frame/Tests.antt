-- ===== src/Proto/Frame/Tests.antt =====
-- Runs of the frame codec, and the properties at concrete frames.
use terminal_x.Common.{ℕ, ◌+◌, ◌≡◌, refl, List, [], ◌∷◌, length, All, arith}
use terminal_x.Proto.Frame.{
  Frame, ok, header_size, max_payload, frame_output, frame_snapshot, flag_reset, marshal, unmarshal,
  chunk,
}
use terminal_x.Proto.Frame.Codec.{IsByte, IsFrame, unmarshal-marshal}
use terminal_x.Proto.Frame.Chunks.{IsChunking, chunk-IsChunking}

abbrev hello : Frame
hello = record { type = frame_output; flags = 0; sid = 7; seq = 300; payload = 104 ∷ 105 ∷ [] }

abbrev hello_bytes : List ℕ
hello_bytes =
    1 ∷ 1 ∷ 0 ∷ 0 ∷ 0 ∷ 0 ∷ 0 ∷ 7 ∷ 0 ∷ 0 ∷ 0 ∷ 0 ∷ 0 ∷ 0 ∷ 1 ∷ 44 ∷ 0 ∷ 2 ∷ 104 ∷ 105 ∷ []

marshal-hello : marshal hello ≡ ok hello_bytes
unfolding marshal
marshal-hello = refl

unmarshal-hello : unmarshal hello_bytes ≡ ok hello
unfolding unmarshal
unmarshal-hello = refl

hello-IsFrame : IsFrame hello
hello-IsFrame = record {
  type_byte = omega arith;
  flags_byte = omega arith;
  sid_word = omega arith;
  seq_word = omega arith;
  payload_bytes = ground arith;
  payload_fits = omega arith;
}

unmarshal-marshal_example :
    (b : List ℕ) × (marshal hello ≡ ok b)
    × (unmarshal b ≡ ok hello)
    × All IsByte b
    × (length b ≡ header_size + length hello.payload)
unmarshal-marshal_example = unmarshal-marshal hello hello-IsFrame

hello_bytes-IsByte : All IsByte hello_bytes
hello_bytes-IsByte = ground arith

chunk-IsChunking_example :
    IsChunking max_payload frame_snapshot 7 9 flag_reset
      (1 ∷ 2 ∷ [])
      (chunk frame_snapshot 7 9 (1 ∷ 2 ∷ []) flag_reset)
chunk-IsChunking_example = chunk-IsChunking frame_snapshot 7 9 (1 ∷ 2 ∷ []) flag_reset (omega arith)
