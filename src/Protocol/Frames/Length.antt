-- ===== src/Protocol/Frames/Length.antt =====
-- protocol/frames.go: EncodedLen of frames and of blocks against the bytes that EncodeTo writes.
use aurora_core.Common.{
  ℕ, ◌+◌, ◌≤◌, ◌≡◌, arith, some, List, [], ◌∷◌, ◌++◌, length, length-append, All, Option-cases, inl,
  inr,
}
use aurora_core.Errors.{ok}
use aurora_core.Wire.Varint.{max_varint}
use aurora_core.Wire.Varint.RoundTrip.{varint_bytes, varint_len-bytes}
use aurora_core.Wire.Encoder.{◌>>◌, encode, write_varint, write_opaque24, write_each}
use aurora_core.Wire.Format.Writes.{
  Writes, Writes-seq, Writes-varint, Writes-opaque24, Writes-each, encode-Writes, each_bytes,
  uint24_bytes,
}
use aurora_core.Protocol.Frames.{
  AuroraFrame, FrameBlock, encode_frame, encode_block, add_encoded_length, add_varint_lengths,
  frame_encoded_len, add_frame_lengths, block_encoded_len,
}
use aurora_core.Protocol.Frames.Codec.{Fits}

abbrev pub frame_bytes : AuroraFrame → List ℕ
frame_bytes f =
    varint_bytes f.frame_type
    ++ (varint_bytes f.flow_id
        ++ (varint_bytes f.flags ++ (uint24_bytes (length f.payload) ++ f.payload)))

abbrev pub block_bytes : FrameBlock → List ℕ
block_bytes b = varint_bytes (length b) ++ each_bytes frame_bytes b

frame_Writes : (f : AuroraFrame) → Fits f → Writes (encode_frame f) (frame_bytes f)
unfolding encode_frame
frame_Writes f h =
    let payload = write_opaque24 f.payload in
    let flags = write_varint f.flags in
    let flow = write_varint f.flow_id in
    Writes-seq (write_varint f.frame_type) (flow >> flags >> payload) (varint_bytes f.frame_type) _
      (Writes-varint f.frame_type h.type_fits)
      (Writes-seq flow (flags >> payload) (varint_bytes f.flow_id) _
        (Writes-varint f.flow_id h.flow_fits)
        (Writes-seq flags payload (varint_bytes f.flags) _ (Writes-varint f.flags h.flags_fit)
          (Writes-opaque24 f.payload h.payload_fits)))

pub block_Writes :
    (b : FrameBlock) → All Fits b → length b ≤ max_varint → Writes (encode_block b) (block_bytes b)
unfolding encode_block
block_Writes b h m =
    Writes-seq (write_varint (length b)) (write_each encode_frame b) (varint_bytes (length b)) _
      (Writes-varint (length b) m) (Writes-each Fits encode_frame frame_bytes frame_Writes b h)

length-frame_bytes :
    (f : AuroraFrame)
    → length (frame_bytes f)
      ≡ 3
        + length f.payload
        + length (varint_bytes f.frame_type)
        + length (varint_bytes f.flow_id)
        + length (varint_bytes f.flags)
length-frame_bytes f =
    let payload = uint24_bytes (length f.payload) ++ f.payload in
    let flags = varint_bytes f.flags ++ payload in
    omega (
      arith,
      length-append (varint_bytes f.frame_type) (varint_bytes f.flow_id ++ flags),
      length-append (varint_bytes f.flow_id) flags,
      length-append (varint_bytes f.flags) payload,
    )

frame_encoded_len-bytes :
    (f : AuroraFrame) (n : ℕ) → Fits f → frame_encoded_len f ≡ some n → n ≡ length (frame_bytes f)
unfolding frame_encoded_len add_varint_lengths add_encoded_length
frame_encoded_len-bytes f n h e = ground (
  arith,
  e,
  length-frame_bytes f,
  varint_len-bytes f.frame_type h.type_fits,
  varint_len-bytes f.flow_id h.flow_fits,
  varint_len-bytes f.flags h.flags_fit,
)

add_frame_lengths-bytes :
    (b : FrameBlock) (total n : ℕ)
    → All Fits b
    → add_frame_lengths total b ≡ some n
    → n ≡ total + length (each_bytes frame_bytes b)
unfolding add_frame_lengths add_encoded_length
add_frame_lengths-bytes [] total n h e = ground (arith, e)
add_frame_lengths-bytes (f ∷ b) total n (h, hs) e = elim (Option-cases (frame_encoded_len f)) [
  | inl unknown ↦ absurd (ground (arith, e, unknown))
  | inr (k, known) ↦
      let rest : add_frame_lengths (total + k) b ≡ some n = ground (arith, e, known) in
      omega (
        arith,
        frame_encoded_len-bytes f k h known,
        add_frame_lengths-bytes b (total + k) n hs rest,
        length-append (frame_bytes f) (each_bytes frame_bytes b),
      )
]

-- The length that a frame block reports before it is encoded is the number of bytes of its encoding,
-- for a block whose frames fit their encodings.
pub block_encoded_len-encode :
    (b : FrameBlock) (n : ℕ)
    → All Fits b
    → length b ≤ max_varint
    → block_encoded_len b ≡ some n
    → (bytes : List ℕ) × (encode (encode_block b) ≡ ok bytes) × (length bytes ≡ n)
unfolding block_encoded_len
block_encoded_len-encode b n h m e =
    let counted : add_frame_lengths (length (varint_bytes (length b))) b ≡ some n =
      ground (arith, e, varint_len-bytes (length b) m) in
    (
      block_bytes b,
      encode-Writes (encode_block b) (block_bytes b) (block_Writes b h m),
      omega (
        arith,
        add_frame_lengths-bytes b _ n h counted,
        length-append (varint_bytes (length b)) (each_bytes frame_bytes b),
      ),
    )
