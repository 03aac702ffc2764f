-- ===== src/Protocol/Optional.antt =====
-- protocol/: fields that a flag announces, nil pointers or nil slices where it is not set.
use aurora_core.Common.{Bool, true, false, Option, none, some, refl}
use aurora_core.Wire.Encoder.{Write, ◌>>◌, write_bool}
use aurora_core.Wire.Reader.{Read, ◌>>=◌, pure, read_bool}
use aurora_core.Wire.Format.Parses.{
  Canonical, Finishes, Finishes-bind, Finishes-pure, Finishes-Canonical,
}
use aurora_core.Wire.Format.Parses.Scalars.{bool_Canonical}

-- A flag, and a value where it is set. The value that Go leaves nil after an error is `some` of what the
-- reader returned; the error stays in the reader.
unfoldable pub branch {ℓ} : {A : Type ℓ} → Read A → Bool → Read (Option A)
branch m true = m >>= λ x. pure (some x)
branch m false = pure none

unfoldable pub read_optional {ℓ} : {A : Type ℓ} → Read A → Read (Option A)
unfolding branch
read_optional m = read_bool >>= branch m

unfoldable pub write_optional {ℓ} : {A : Type ℓ} → (A → Write) → Option A → Write
write_optional w none = write_bool false
write_optional w (some x) = write_bool true >> w x

branch-Finishes {ℓ} :
    {A : Type ℓ} {m : Read A} {w : A → Write}
    → Canonical m w
    → (b : Bool) → Finishes (branch m b) (write_optional w) (write_bool b)
unfolding branch write_optional
branch-Finishes c true = Finishes-bind c λ x. Finishes-pure (some x) refl
branch-Finishes c false = Finishes-pure none refl

pub optional_Canonical {ℓ} :
    {A : Type ℓ} {m : Read A} {w : A → Write}
    → Canonical m w
    → Canonical (read_optional m) (write_optional w)
unfolding read_optional write_optional
optional_Canonical {A} {m} {w} c =
    Finishes-Canonical (Finishes-bind bool_Canonical (branch-Finishes c))
