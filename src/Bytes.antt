-- ===== src/Bytes.antt =====
-- bytecast/src/traits.rs and error.rs: the traits `ToBytes` and `FromBytes`. A buffer is the list of
-- its bytes, and a function that writes to `&mut [u8]` returns the new bytes beside its result.
pub mod Codec
pub mod Primitives
pub mod Composites
pub mod Pairs
pub mod Whole
pub mod RoundTrip
pub mod VarInt
pub mod Groups
pub mod Canonical
pub mod Cursors
mod Tests
use Prim.Native.String.{String}
use abmac_lib.Prelude.{
  ℕ, ◌+◌, ◌*◌, List, [], ◌∷◌, ◌++◌, Option, none, some, length, take, drop, replicate, ltb, ◌==◌,
  if◌then◌else◌, Result, ok, err,
}

pub data BytesError : Type 0 where
  buffer_too_small : ℕ → ℕ → BytesError
  invalid_data : String → BytesError
  unexpected_eof : ℕ → ℕ → BytesError
  custom : String → BytesError

-- A write to a buffer, with its result. What was written before an error stays written.
abbrev pub Write {ℓ} : Type ℓ → Type ℓ
Write A = List ℕ → Result BytesError A × List ℕ

-- What follows a write: the next one if it succeeded, and nothing if it failed.
abbrev pub follow {ℓ κ} :
    {A : Type ℓ} {B : Type κ}
    → (A → Write B)
    → Result BytesError A × List ℕ
    → Result BytesError B × List ℕ
follow f (ok a, buf) = f a buf
follow f (err e, buf) = (err e, buf)

infixl 5 ◌>>=◌ ◌>>◌
abbrev pub ◌>>=◌ {ℓ κ} : {A : Type ℓ} {B : Type κ} → Write A → (A → Write B) → Write B
◌>>=◌ m f buf = follow f (m buf)

abbrev pub ◌>>◌ {ℓ} : {B : Type ℓ} → Write (Unit {0}) → Write B → Write B
m >> k = m >>= λ _. k

abbrev pub return {ℓ} : {A : Type ℓ} → A → Write A
return a buf = (ok a, buf)

abbrev pub throw {ℓ} : {A : Type ℓ} → BytesError → Write A
throw e buf = (err e, buf)

-- A write to `&mut buf[offset..]`. The offsets that occur are at most the length of the buffer
-- (`Codec.Writes`), past which the slice would panic.
abbrev pub within {ℓ} : {A : Type ℓ} → ℕ → Write A → Write A
within offset m buf = let (r, rest) = m (drop offset buf) in (r, take offset buf ++ rest)

-- `if buf.len() < needed { return Err(BufferTooSmall) }`
abbrev pub require : ℕ → Write (Unit {0})
require needed buf =
    if ltb (length buf) needed
    then (err (buffer_too_small needed (length buf)), buf)
    else (ok tt, buf)

-- `buf[..bytes.len()].copy_from_slice(bytes)`
abbrev pub store : List ℕ → Write (Unit {0})
store bytes buf = (ok tt, bytes ++ drop (length bytes) buf)

pub record ToBytes {ℓ} (A : Type ℓ) : Type ℓ where
  pub max_size : Option ℕ
  pub to_bytes : A → Write ℕ
  pub byte_len : A → Option ℕ

pub record FromBytes {ℓ} (A : Type ℓ) : Type ℓ where
  pub from_bytes : List ℕ → Result BytesError (A × ℕ)

-- `a.or(b)`
abbrev pub or_option {ℓ} : {A : Type ℓ} → Option A → Option A → Option A
or_option (some a) b = some a
or_option none b = b

abbrev pub unwrap_or {ℓ} : {A : Type ℓ} → Option A → A → A
unwrap_or (some a) d = a
unwrap_or none d = d

-- `Vec::resize(size, 0)`
abbrev pub resize : List ℕ → ℕ → List ℕ
resize buf size = take size (buf ++ replicate size 0)
