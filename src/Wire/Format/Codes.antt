-- ===== src/Wire/Format/Codes.antt =====
-- A value that the encoder writes and the reader reads back: its bytes, at least `n` of them.
use aurora_core.Common.{
  ℕ, ◌+◌, ◌≤◌, ◌<◌, ◌^◌, ◌≡◌, refl, ◌∙◌, arith, Bool, List, [], ◌∷◌, ◌++◌, length, length-append,
  append-nil, sym, subst, none, true,
}
use aurora_core.Errors.{ok}
use aurora_core.Wire.Varint.{max_varint}
use aurora_core.Wire.Varint.RoundTrip.{varint_bytes}
use aurora_core.Wire.Encoder.{
  Write, ◌>>◌, write_uint8, write_bool, write_uint16, write_uint32, write_uint64, write_varint,
  write_opaque_fixed, write_opaque8, write_opaque16, write_opaque24, write_pre_hash, encode,
  encode_uint64,
}
use aurora_core.Wire.Reader.{
  Read, ◌>>=◌, pure, read_uint8, read_bool, read_uint16, read_uint32, read_uint64, read_varint,
  read_opaque_fixed, read_opaque8, read_opaque16, read_opaque24, read_pre_hash, new_reader, eof,
}
use aurora_core.Wire.Format.Writes
use aurora_core.Wire.Format.Writes.{
  Writes, Writes-seq, encode-Writes, bool_byte, uint16_bytes, uint24_bytes, uint32_bytes,
}
use aurora_core.Wire.Format.Reads
use aurora_core.Wire.Format.Reads.{Holds, Reads, Reads-bind, Reads-map, new_reader-Holds, eof-Holds}

pub record Codes {ℓ} {A : Type ℓ} (n : ℕ) (w : Write) (m : Read A) (a : A) : Type ℓ where
  pub bytes : List ℕ
  pub size : n ≤ length bytes
  pub writes : Writes w bytes
  pub reads : Reads m bytes a

-- The rest of a decoder is given the value that was read as a variable with its equation, so that
-- a chain of these follows the text of the decoder.
pub Codes-bind {ℓ κ} :
    {A : Type ℓ} {B : Type κ} {j k : ℕ} {w u : Write} {m : Read A} {f : A → Read B} {a : A} {b : B}
    → Codes j w m a
    → ((x : A) → x ≡ a → Codes k u (f x) b)
    → Codes (j + k) (w >> u) (m >>= f) b
Codes-bind {j} {k} {w} {u} {m} {f} {a} {b} c rest =
    let d = rest a refl in
    record {
      bytes = c.bytes ++ d.bytes;
      size = omega (arith, length-append c.bytes d.bytes, c.size, d.size);
      writes = Writes-seq w u c.bytes d.bytes c.writes d.writes;
      reads = Reads-bind m f c.bytes d.bytes a b c.reads d.reads;
    }

-- The last field, and the record built from all.
pub Codes-last {ℓ κ} :
    {A : Type ℓ} {B : Type κ} {k : ℕ} {w : Write} {m : Read A} {g : A → B} {a : A} {b : B}
    → Codes k w m a
    → ((x : A) → x ≡ a → g x ≡ b)
    → Codes k w (m >>= λ x. pure (g x)) b
Codes-last {m} {g} {a} {b} c e = record {
  bytes = c.bytes;
  size = c.size;
  writes = c.writes;
  reads = λ r rest h. let q = Reads-map m g c.bytes a c.reads r rest h in (q.0 ∙ e a refl, q.1);
}

pub varint_bytes_pos : (v : ℕ) → 1 ≤ length (varint_bytes v)
unfolding varint_bytes
varint_bytes_pos v = ground arith

pub varint_Codes : (v : ℕ) → v ≤ max_varint → Codes 1 (write_varint v) read_varint v
varint_Codes v h = record {
  bytes = varint_bytes v;
  size = varint_bytes_pos v;
  writes = Writes.Writes-varint v h;
  reads = Reads.Reads-varint v h;
}

pub uint8_Codes : (v : ℕ) → Codes 1 (write_uint8 v) read_uint8 v
uint8_Codes v = record {
  bytes = v ∷ [];
  size = omega arith;
  writes = Writes.Writes-uint8 v;
  reads = Reads.Reads-uint8 v;
}

pub bool_Codes : (v : Bool) → Codes 1 (write_bool v) read_bool v
bool_Codes v = record {
  bytes = bool_byte v ∷ [];
  size = omega arith;
  writes = Writes.Writes-bool v;
  reads = Reads.Reads-bool v;
}

pub uint16_Codes : (v : ℕ) → v < 2 ^ 16 → Codes 2 (write_uint16 v) read_uint16 v
uint16_Codes v h = record {
  bytes = uint16_bytes v;
  size = omega arith;
  writes = Writes.Writes-uint16 v;
  reads = Reads.Reads-uint16 v h;
}

pub uint32_Codes : (v : ℕ) → v < 2 ^ 32 → Codes 4 (write_uint32 v) read_uint32 v
uint32_Codes v h = record {
  bytes = uint32_bytes v;
  size = omega arith;
  writes = Writes.Writes-uint32 v;
  reads = Reads.Reads-uint32 v h;
}

pub uint64_Codes : (v : ℕ) → v < 2 ^ 64 → Codes 8 (write_uint64 v) read_uint64 v
unfolding encode_uint64
uint64_Codes v h = record {
  bytes = encode_uint64 v;
  size = omega arith;
  writes = Writes.Writes-uint64 v;
  reads = Reads.Reads-uint64 v h;
}

pub opaque_fixed_Codes :
    (b : List ℕ) (n : ℕ) → length b ≡ n → Codes 0 (write_opaque_fixed b n) (read_opaque_fixed n) b
opaque_fixed_Codes b n h = record {
  bytes = b;
  size = omega arith;
  writes = Writes.Writes-opaque_fixed b n h;
  reads = Reads.Reads-opaque_fixed b n h;
}

pub pre_hash_Codes : (b : List ℕ) → length b ≡ 48 → Codes 48 (write_pre_hash b) read_pre_hash b
pre_hash_Codes b h = record {
  bytes = b;
  size = omega (arith, h);
  writes = Writes.Writes-pre_hash b h;
  reads = Reads.Reads-pre_hash b h;
}

pub opaque8_Codes : (b : List ℕ) → length b ≤ 0xff → Codes 1 (write_opaque8 b) read_opaque8 b
opaque8_Codes b h = record {
  bytes = length b ∷ b;
  size = omega arith;
  writes = Writes.Writes-opaque8 b h;
  reads = Reads.Reads-opaque8 b h;
}

pub opaque16_Codes : (b : List ℕ) → length b ≤ 0xffff → Codes 2 (write_opaque16 b) read_opaque16 b
opaque16_Codes b h = record {
  bytes = uint16_bytes (length b) ++ b;
  size = omega (arith, length-append (uint16_bytes (length b)) b);
  writes = Writes.Writes-opaque16 b h;
  reads = Reads.Reads-opaque16 b h;
}

pub opaque24_Codes : (b : List ℕ) → length b ≤ 0xffffff → Codes 3 (write_opaque24 b) read_opaque24 b
opaque24_Codes b h = record {
  bytes = uint24_bytes (length b) ++ b;
  size = omega (arith, length-append (uint24_bytes (length b)) b);
  writes = Writes.Writes-opaque24 b h;
  reads = Reads.Reads-opaque24 b h;
}

-- What a whole-input decoder meets: the value, no error, and the end of the input.
pub record Decodes {ℓ} {A : Type ℓ} (m : Read A) (b : List ℕ) (a : A) : Type ℓ where
  pub value : (m (new_reader b)).0 ≡ a
  pub clean : (m (new_reader b)).1.err ≡ none
  pub ended : eof (m (new_reader b)).1 ≡ true

pub Codes-Decodes {ℓ} :
    {A : Type ℓ} {n : ℕ} {w : Write} {m : Read A} {a : A} (c : Codes n w m a) → Decodes m c.bytes a
Codes-Decodes {m} c =
    let q =
      c.reads (new_reader c.bytes) [] (
        subst (Holds (new_reader c.bytes)) (sym (append-nil c.bytes)) (new_reader-Holds c.bytes)) in
    record { value = q.0; clean = q.1.clean; ended = eof-Holds (m (new_reader c.bytes)).1 q.1 }

pub Codes-encode {ℓ} :
    {A : Type ℓ} {n : ℕ} {w : Write} {m : Read A} {a : A} (c : Codes n w m a)
    → encode w ≡ ok c.bytes
Codes-encode {w} c = encode-Writes w c.bytes c.writes
