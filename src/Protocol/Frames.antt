-- ===== src/Protocol/Frames.antt =====
-- protocol/frames.go: frames, frame blocks and their encodings.
pub mod Codec
pub mod Length
use aurora_core.Common.{
  ℕ, zero, suc, ◌+◌, ◌-◌, ◌^◌, Bool, true, false, not, Option, none, some, List, [], ◌∷◌, ltb, leb,
  ◌==◌, if◌then◌else◌, length,
}
use aurora_core.Errors.{Error, Result, ok, fail, frame_count_limit, trailing_frame_block}
use aurora_core.Wire.Varint.{varint_len}
use aurora_core.Wire.Encoder.{
  Write, ◌>>◌, write_varint, write_opaque24, write_each, encode, encode_with_capacity,
}
use aurora_core.Wire.Reader.{
  Reader, Read, ◌>>=◌, pure, read_varint, read_opaque24, read_vector_count, read_each, new_reader,
  eof,
}

abbrev pub max_frame_block_frames : ℕ
max_frame_block_frames = 4096

pub record AuroraFrame : Type 0 where
  pub frame_type : ℕ
  pub flow_id : ℕ
  pub flags : ℕ
  pub payload : List ℕ

-- The largest int of a 64-bit platform; a sum beyond it is refused.
abbrev pub max_int : ℕ
max_int = 2 ^ 63 - 1

unfoldable pub add_encoded_length : ℕ → ℕ → Option ℕ
add_encoded_length total next = if ltb (max_int - next) total then none else some (total + next)

-- The loop over the three varints of a frame, and that over the frames of a block.
unfoldable pub add_varint_lengths : ℕ → List ℕ → Option ℕ
unfolding add_encoded_length
add_varint_lengths length [] = some length
add_varint_lengths length (value ∷ values) = elim (varint_len value) [
  | fail x ↦ none
  | ok n ↦ elim (add_encoded_length length n) [
    | none ↦ none
    | some total ↦ add_varint_lengths total values
  ]
]

unfoldable pub frame_encoded_len : AuroraFrame → Option ℕ
unfolding add_varint_lengths
frame_encoded_len f =
    if ltb 0xffffff (length f.payload)
    then none
    else add_varint_lengths (3 + length f.payload) (f.frame_type ∷ f.flow_id ∷ f.flags ∷ [])

unfoldable pub encode_frame : AuroraFrame → Write
encode_frame f = do
  write_varint f.frame_type
  write_varint f.flow_id
  write_varint f.flags
  write_opaque24 f.payload

unfoldable pub decode_aurora_frame : Read AuroraFrame
decode_aurora_frame = do
  frame_type ← read_varint
  flow_id ← read_varint
  flags ← read_varint
  payload ← read_opaque24
  pure (record { frame_type = frame_type; flow_id = flow_id; flags = flags; payload = payload })

-- A FrameBlock is the list of its frames.
abbrev pub FrameBlock : Type 0
FrameBlock = List AuroraFrame

unfoldable pub add_frame_lengths : ℕ → List AuroraFrame → Option ℕ
unfolding frame_encoded_len add_encoded_length
add_frame_lengths length [] = some length
add_frame_lengths length (frame ∷ frames) = elim (frame_encoded_len frame) [
  | none ↦ none
  | some n ↦ elim (add_encoded_length length n) [
    | none ↦ none
    | some total ↦ add_frame_lengths total frames
  ]
]

unfoldable pub block_encoded_len : FrameBlock → Option ℕ
unfolding add_frame_lengths
block_encoded_len b = elim (varint_len (length b)) [ fail x ↦ none | ok n ↦ add_frame_lengths n b ]

unfoldable pub encode_block : FrameBlock → Write
unfolding encode_frame write_each
encode_block b = write_varint (length b) >> write_each encode_frame b

-- protocol.Encode on a FrameBlock (types.go): with its length as the capacity where that is known.
unfoldable pub encode_frame_block : FrameBlock → Result (List ℕ)
encode_frame_block block = elim (block_encoded_len block) [
  | some length ↦ encode_with_capacity (encode_block block) length
  | none ↦ encode (encode_block block)
]

unfoldable pub decode_frame_block : List ℕ → Result FrameBlock
decode_frame_block encoded =
    let (count, r) = read_vector_count (new_reader encoded) in
    let (block, r') = read_each count decode_aurora_frame r in
    if ltb max_frame_block_frames count then fail frame_count_limit else elim r'.err [
      | some x ↦ fail x
      | none ↦ if not (eof r') then fail trailing_frame_block else ok block
    ]
