-- ===== src/Protocol/Frames/Codec.antt =====
-- Frame blocks: the decoder accepts canonical encodings only, and reads back what the encoder wrote.
use aurora_core.Common.{
  ℕ, ◌≤◌, ◌≡◌, refl, sym, ap, ◌∙◌, arith, true, Option, none, some, List, length, All, Option-cases,
  inl, inr,
}
use aurora_core.Common.Words.{Bytes}
use aurora_core.Errors.{ok}
use aurora_core.Wire.Varint.{max_varint}
use aurora_core.Wire.Encoder.{Write, encode, encode_expecting, encode_with_capacity}
use aurora_core.Wire.Reader.{Read, ◌>>=◌, read_vector_count, read_each, new_reader, eof}
use aurora_core.Wire.Format.Codes.{
  Codes, Codes-bind, Codes-last, Codes-Decodes, Codes-encode, varint_Codes, opaque24_Codes,
}
use aurora_core.Wire.Format.Parses.{
  Canonical, Finishes-bind, Finishes-pure, Finishes-Canonical, Canonical-encode,
}
use aurora_core.Wire.Format.Parses.Scalars.{varint_Canonical, opaque24_Canonical}
use aurora_core.Wire.Format.Vectors.{
  Counts, length-read_each, Sticky-vector_count, vector_head_Parses, vector_Canonical, vector_Codes,
  read_vector_count-bytes,
}
use aurora_core.Protocol.Frames.{
  AuroraFrame, FrameBlock, encode_frame, decode_aurora_frame, encode_block, encode_frame_block,
  decode_frame_block, block_encoded_len, max_frame_block_frames,
}

-- A capacity changes nothing in what is returned.
pub encode_expecting_lem :
    (w : Write) (expected : Option ℕ) → encode_expecting w expected ≡ encode w
unfolding encode
encode_expecting_lem w none = refl
encode_expecting_lem w (some n) = ground arith

pub encode_frame_block_lem :
    (block : FrameBlock) → encode_frame_block block ≡ encode (encode_block block)
unfolding encode_frame_block encode_with_capacity
encode_frame_block_lem block = elim (Option-cases (block_encoded_len block)) [
  | inl e ↦ rw (e, encode_frame_block)
  | inr (n, e) ↦ rw (e, encode_frame_block) (encode_expecting_lem (encode_block block) (some n))
]

pub frame_Canonical : Canonical decode_aurora_frame encode_frame
unfolding decode_aurora_frame encode_frame
frame_Canonical = Finishes-Canonical (
    Finishes-bind varint_Canonical λ t. Finishes-bind varint_Canonical λ i.
      Finishes-bind varint_Canonical
        λ f. Finishes-bind opaque24_Canonical λ p. Finishes-pure _ refl)

-- The fields of a frame fit their encodings.
pub record Fits (f : AuroraFrame) : Type 0 where
  pub type_fits : f.frame_type ≤ max_varint
  pub flow_fits : f.flow_id ≤ max_varint
  pub flags_fit : f.flags ≤ max_varint
  pub payload_fits : length f.payload ≤ 0xffffff

pub frame_Codes : (f : AuroraFrame) → Fits f → Codes 6 (encode_frame f) decode_aurora_frame f
unfolding decode_aurora_frame encode_frame
frame_Codes f h = Codes-bind (varint_Codes f.frame_type h.type_fits) λ t e.
    Codes-bind (varint_Codes f.flow_id h.flow_fits) λ i e'.
      Codes-bind (varint_Codes f.flags h.flags_fit) λ g e''.
        Codes-last (opaque24_Codes f.payload h.payload_fits) λ p e'''.
          λ k. record { frame_type = e k; flow_id = e' k; flags = e'' k; payload = e''' k }

-- The decoder of a block, without its final tests.
abbrev read_block : Read FrameBlock
read_block = read_vector_count >>= λ n. read_each n decode_aurora_frame

block_Canonical : Canonical read_block encode_block
unfolding encode_block
block_Canonical =
    vector_Canonical read_vector_count Sticky-vector_count vector_head_Parses frame_Canonical

count_Counts : Counts 6 read_vector_count
count_Counts n r rest m room h = read_vector_count-bytes n r rest m (omega arith) h

block_Codes :
    (block : FrameBlock)
    → All Fits block
    → length block ≤ max_varint
    → Codes 1 (encode_block block) read_block block
unfolding encode_block
block_Codes block fits m = vector_Codes read_vector_count count_Counts frame_Codes block fits m

-- What a block that decodes says of the reader.
decoded :
    (b : List ℕ) (block : FrameBlock)
    → decode_frame_block b ≡ ok block
    → ((read_block (new_reader b)).0 ≡ block)
      × ((read_block (new_reader b)).1.err ≡ none)
      × (eof (read_block (new_reader b)).1 ≡ true)
      × ((read_vector_count (new_reader b)).0 ≤ max_frame_block_frames)
unfolding decode_frame_block
decoded b block e = ground arith

-- A byte string that decodes is what the encoder returns for the block: no other encoding of the
-- same frames is accepted.
pub decode_frame_block-encode :
    (b : List ℕ) (block : FrameBlock)
    → Bytes b
    → decode_frame_block b ≡ ok block
    → encode_frame_block block ≡ ok b
decode_frame_block-encode b block hb e =
    let d = decoded b block e in
    encode_frame_block_lem block
    ∙ ap (λ f. encode (encode_block f)) (sym d.0)
    ∙ Canonical-encode block_Canonical b hb d.1 d.2

accepted :
    (b : List ℕ) (block : FrameBlock)
    → length block ≤ max_frame_block_frames
    → (read_vector_count (new_reader b)).0 ≡ length block
    → (read_block (new_reader b)).0 ≡ block
    → (read_block (new_reader b)).1.err ≡ none
    → eof (read_block (new_reader b)).1 ≡ true
    → decode_frame_block b ≡ ok block
unfolding decode_frame_block
accepted b block m n v c e = ground arith

-- A block of at most 4096 frames whose fields fit is encoded, and decodes to itself.
pub encode_frame_block-decode :
    (block : FrameBlock)
    → All Fits block
    → length block ≤ max_frame_block_frames
    → (b : List ℕ) × (encode_frame_block block ≡ ok b) × (decode_frame_block b ≡ ok block)
encode_frame_block-decode block fits m =
    let c = block_Codes block fits (omega (arith, m)) in
    let d = Codes-Decodes c in
    let r = read_vector_count (new_reader c.bytes) in
    let counted : r.0 ≡ length block =
      sym (length-read_each r.0 decode_aurora_frame r.1)
      ∙ ap (λ (f : FrameBlock). length f) d.value in
    (
      c.bytes,
      encode_frame_block_lem block ∙ Codes-encode c,
      accepted c.bytes block m counted d.value d.clean d.ended,
    )
