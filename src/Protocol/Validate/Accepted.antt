-- ===== src/Protocol/Validate/Accepted.antt =====
-- What the validation of a block says of each of its frames.
use aurora_core.Common.{
  ℕ, ◌+◌, ◌%◌, ◌≤◌, ◌<◌, ◌^◌, ◌≡◌, ◌≢◌, sym, ap, ◌∙◌, arith, true, none, List, [], ◌∷◌, length, All,
  inl, inr,
}
use aurora_core.Common.Words.{Bytes}
use aurora_core.Errors.{Error, Result, ok, bind-ok, Result-cases, trailing_key_update}
use aurora_core.Registry.{frame_key_update, frame_flow_open}
use aurora_core.Wire.Encoder.{Write, encode}
use aurora_core.Wire.Reader.{Read, new_reader, eof}
use aurora_core.Wire.Format.Codes.{Codes, Codes-Decodes}
use aurora_core.Wire.Format.Parses.{Canonical, Canonical-encode}
use aurora_core.Protocol.Frames.{AuroraFrame, FrameBlock, max_frame_block_frames}
use aurora_core.Protocol.KeyUpdate.{
  KeyUpdate, decode_key_update, encode_key_update, validate_key_update,
}
use aurora_core.Protocol.KeyUpdate.Codec.{key_update_Canonical}
use aurora_core.Protocol.Flows.{FlowOpen, decode_flow_open, encode_flow_open, validate_flow_open}
use aurora_core.Protocol.Flows.Codec.{flow_open_Canonical}
use aurora_core.Protocol.Validate.{
  is_data, validate_data_frame, decode_whole, each_frame, validate_frame,
  validate_frame_for_direction, validate_frame_block, validate_frame_block_for_direction,
  validate_key_update_frame_for_direction, validate_flow_management_frame,
}

pub decode_whole-encode {ℓ} :
    {A : Type ℓ} {m : Read A} {w : A → Write} {a : A} (trailing : Error)
    → Canonical m w
    → (b : List ℕ) → Bytes b
    → decode_whole m trailing b ≡ ok a
    → encode (w a) ≡ ok b
decode_whole-encode {m} {w} {a} trailing h b hb e =
    let q = taken e in ap (λ x. encode (w x)) (sym q.0) ∙ Canonical-encode h b hb q.1 q.2
  where
    taken :
        decode_whole m trailing b ≡ ok a
        → ((m (new_reader b)).0 ≡ a)
          × ((m (new_reader b)).1.err ≡ none)
          × (eof (m (new_reader b)).1 ≡ true)
    taken e = unfold decode_whole in ground arith

pub decode_whole-Codes {ℓ} :
    {A : Type ℓ} {n : ℕ} {w : Write} {m : Read A} {a : A} (trailing : Error) (c : Codes n w m a)
    → decode_whole m trailing c.bytes ≡ ok a
unfolding decode_whole
decode_whole-Codes {m} {a} trailing c =
    let d = Codes-Decodes c in ground (arith, d.value, d.clean, d.ended)

each_frame-cons :
    (check : AuroraFrame → Result (Unit {0})) (f : AuroraFrame) (fs : FrameBlock)
    → each_frame check (f ∷ fs) ≡ ok tt
    → (check f ≡ ok tt) × (each_frame check fs ≡ ok tt)
unfolding each_frame
each_frame-cons check f fs e = let q = bind-ok (check f) (λ _. each_frame check fs) e in (q.1, q.2)

pub each_frame-All {κ} :
    (P : AuroraFrame → Type κ) (check : AuroraFrame → Result (Unit {0}))
    → ((f : AuroraFrame) → check f ≡ ok tt → P f)
    → (block : FrameBlock) → each_frame check block ≡ ok tt
    → All P block
each_frame-All P check h [] e = tt
each_frame-All P check h (f ∷ fs) e =
    let q = each_frame-cons check f fs e in (h f q.0, each_frame-All P check h fs q.1)

-- What the receiver of a packet in `direction` may rely on for a frame of a validated block.
pub record Accepted (direction : ℕ) (f : AuroraFrame) : Type 0 where
  -- A key update is a canonical payload for this direction, from a phase to the next.
  pub key_update :
      f.frame_type ≡ frame_key_update
      → (k : KeyUpdate) × (encode (encode_key_update k) ≡ ok f.payload)
        × (k.direction ≡ direction)
        × (k.new_key_phase ≡ (k.old_key_phase + 1) % 2 ^ 16)
  -- A flow is opened in the forward direction only, by a valid payload for the frame's flow.
  pub flow_open :
      f.frame_type ≡ frame_flow_open
      → (o : FlowOpen) × (encode (encode_flow_open o) ≡ ok f.payload)
        × (o.flow_id ≡ f.flow_id)
        × (validate_flow_open o ≡ ok tt)
        × (direction ≢ 1)
  -- Data frames carry data of a flow.
  pub data_frame : is_data f.frame_type ≡ true → (f.flow_id ≢ 0) × (0 < length f.payload)

key_update_accepted :
    (direction : ℕ) (f : AuroraFrame)
    → Bytes f.payload
    → validate_key_update_frame_for_direction f direction ≡ ok tt
    → f.frame_type ≡ frame_key_update
    → (k : KeyUpdate) × (encode (encode_key_update k) ≡ ok f.payload)
      × (k.direction ≡ direction)
      × (k.new_key_phase ≡ (k.old_key_phase + 1) % 2 ^ 16)
unfolding validate_key_update_frame_for_direction validate_key_update
key_update_accepted direction f hb v t =
    elim (Result-cases (decode_whole decode_key_update trailing_key_update f.payload)) [
      | inl (k, e) ↦ (
        k,
        decode_whole-encode trailing_key_update key_update_Canonical f.payload hb e,
        ground (arith, e),
        ground (arith, e),
      )
      | inr (x, e) ↦ absurd (ground (arith, e))
    ]

flow_open_accepted :
    (f : AuroraFrame)
    → Bytes f.payload
    → validate_flow_management_frame f ≡ ok tt
    → f.frame_type ≡ frame_flow_open
    → (o : FlowOpen) × (encode (encode_flow_open o) ≡ ok f.payload)
      × (o.flow_id ≡ f.flow_id)
      × (validate_flow_open o ≡ ok tt)
unfolding validate_flow_management_frame
flow_open_accepted f hb v t =
    let q = decode_flow_open (new_reader f.payload) in
    (
      q.0,
      Canonical-encode flow_open_Canonical f.payload hb (ground arith) (ground arith),
      ground arith,
      ground arith,
    )

data_accepted :
    (f : AuroraFrame)
    → validate_data_frame f ≡ ok tt
    → is_data f.frame_type ≡ true
    → (f.flow_id ≢ 0) × (0 < length f.payload)
unfolding validate_data_frame
data_accepted f v t = ((λ e. ground (arith, e)), ground arith)

-- The parts of a frame's validation that are used here.
frame_parts :
    (f : AuroraFrame)
    → validate_frame f ≡ ok tt
    → (validate_data_frame f ≡ ok tt) × (validate_flow_management_frame f ≡ ok tt)
unfolding validate_frame
frame_parts f v = (ground arith, ground arith)

direction_parts :
    (direction : ℕ) (f : AuroraFrame)
    → validate_frame_for_direction direction f ≡ ok tt
    → (validate_key_update_frame_for_direction f direction ≡ ok tt)
      × (f.frame_type ≡ frame_flow_open → direction ≢ 1)
unfolding validate_frame_for_direction
direction_parts direction f v = (ground arith, λ e d. ground (arith, e, d))

frame-Accepted :
    (direction : ℕ) (f : AuroraFrame)
    → Bytes f.payload
    → validate_frame f ≡ ok tt
    → validate_frame_for_direction direction f ≡ ok tt
    → Accepted direction f
frame-Accepted direction f hb v d =
    let p = frame_parts f v in
    let q = direction_parts direction f d in
    record {
      key_update = key_update_accepted direction f hb q.0;
      flow_open = λ t. let (o, e, i, u) = flow_open_accepted f hb p.1 t in (o, e, i, u, q.1 t);
      data_frame = data_accepted f p.0;
    }

frames-Accepted :
    (direction : ℕ) (block : FrameBlock)
    → All (λ f. Bytes f.payload) block
    → All (λ f. validate_frame f ≡ ok tt) block
    → All (λ f. validate_frame_for_direction direction f ≡ ok tt) block
    → All (Accepted direction) block
frames-Accepted direction [] hb v d = tt
frames-Accepted direction (f ∷ fs) hb v d =
    (frame-Accepted direction f hb.0 v.0 d.0, frames-Accepted direction fs hb.1 v.1 d.1)

block_parts :
    (block : FrameBlock) (direction : ℕ)
    → validate_frame_block_for_direction block direction ≡ ok tt
    → (each_frame validate_frame block ≡ ok tt)
      × (each_frame (validate_frame_for_direction direction) block ≡ ok tt)
      × (length block ≤ max_frame_block_frames)
      × (direction ≤ 1)
unfolding validate_frame_block_for_direction validate_frame_block
block_parts block direction e = (ground arith, ground arith, ground arith, ground arith)

-- A block that passes for a direction has at most 4096 frames, each accepted for that direction.
pub validate_frame_block_for_direction-Accepted :
    (block : FrameBlock) (direction : ℕ)
    → All (λ f. Bytes f.payload) block
    → validate_frame_block_for_direction block direction ≡ ok tt
    → All (Accepted direction) block × (length block ≤ max_frame_block_frames) × (direction ≤ 1)
validate_frame_block_for_direction-Accepted block direction hb e =
    let p = block_parts block direction e in
    (
      frames-Accepted direction block hb
          (each_frame-All (λ f. validate_frame f ≡ ok tt) validate_frame (λ f h. h) block p.0)
          (each_frame-All (λ f. validate_frame_for_direction direction f ≡ ok tt)
            (validate_frame_for_direction direction) (λ f h. h) block p.1),
      p.2,
      p.3,
    )
