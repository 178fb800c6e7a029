-- ===== src/Bytes/Primitives.antt =====
-- bytecast/src/impls/wrapper.rs and mod.rs: the fixed-size types. An unsigned integer of `k` bytes
-- is a number below `256 ^ k`; a signed one or a float is its bit pattern.
use Prim.Native.String.{String}
use native.Mathlib.Nat.{pow-suc}
use abmac_lib.Prelude.{
  take-append_self, ℕ, zero, suc, ◌+◌, ◌*◌, ◌/◌, ◌%◌, ◌^◌, ◌<◌, ◌≡◌, refl, sym, ap, Bool, true,
  false, List, [], ◌∷◌, ◌++◌, some, length, take, drop, arith, ok, err, and_then, ltb, ◌==◌, ◌&&◌,
  ◌||◌, leb, if◌then◌else◌, lt→ltb, le→ltb, length-append, word, ne→==,
}
use abmac_lib.Bytes.{invalid_data, unexpected_eof, ◌>>◌, return, require, store, ToBytes, FromBytes}
use abmac_lib.Bytes.Codec.{Writes, IsCodec}

-- `to_le_bytes` and `from_le_bytes` of an integer of `k` bytes.
unfoldable pub le_bytes : ℕ → ℕ → List ℕ
le_bytes zero v = []
le_bytes (suc k) v = (v % 256) ∷ le_bytes k (v / 256)

unfoldable pub from_le_bytes : List ℕ → ℕ
from_le_bytes [] = 0
from_le_bytes (b ∷ bs) = b + 256 * from_le_bytes bs

pub length-le_bytes : (k v : ℕ) → length (le_bytes k v) ≡ k
unfolding le_bytes
length-le_bytes zero v = refl
length-le_bytes (suc k) v = ap suc (length-le_bytes k (v / 256))

from_le_bytes-le_bytes : (k v : ℕ) → v < 256 ^ k → from_le_bytes (le_bytes k v) ≡ v
unfolding le_bytes from_le_bytes
from_le_bytes-le_bytes zero v h = omega arith
from_le_bytes-le_bytes (suc k) v h =
    omega (arith, from_le_bytes-le_bytes k (v / 256) (omega (arith, pow-suc 256 k)))

-- `impl_le_primitive!`
unfoldable pub uint_to_bytes : ℕ → ToBytes ℕ
uint_to_bytes k = record {
  max_size = some k;
  to_bytes = λ v. (do require k; store (le_bytes k v); return k);
  byte_len = λ v. some k;
}

unfoldable pub uint_from_bytes : ℕ → FromBytes ℕ
uint_from_bytes k = record {
  from_bytes = λ buf.
      if ltb (length buf) k
      then err (unexpected_eof k (length buf))
      else ok (from_le_bytes (take k buf), k);
}

-- A fixed number of bytes, after a check that there is room.
pub store-Writes :
    (k : ℕ) (bytes : List ℕ)
    → length bytes ≡ k
    → Writes (require k >> (store bytes >> return k)) bytes
store-Writes k bytes e = record {
  fits = λ buf h.
      rw (le→ltb (length buf) k (omega arith))
        (ap (λ t. (ok t, bytes ++ drop (length bytes) buf)) (sym e));
  too_small = λ buf h. rw (lt→ltb (length buf) k (omega arith)) (k, length buf, refl, refl);
}

pub take_exact {ℓ} : {A : Type ℓ} (k : ℕ) (xs ys : List A) → length xs ≡ k → take k (xs ++ ys) ≡ xs
take_exact k xs ys e = rw (← e) (take-append_self xs ys)

-- Every integer is read back from its little-endian bytes, whatever follows them.
pub uint-IsCodec :
    (k : ℕ) → IsCodec (uint_to_bytes k) (uint_from_bytes k) (le_bytes k) (λ v. v < 256 ^ k)
unfolding uint_to_bytes uint_from_bytes
uint-IsCodec k = record {
  writes = λ v h. store-Writes k (le_bytes k v) (length-le_bytes k v);
  reads = λ v rest h. rw (
    le→ltb (length (le_bytes k v ++ rest)) k (rw (length-append, length-le_bytes) (omega arith)),
    take_exact k (le_bytes k v) rest (length-le_bytes k v),
    from_le_bytes-le_bytes k v h,
    length-le_bytes,
  );
  max_size_bound = λ v m h e. ground (arith, length-le_bytes k v);
  byte_len_bound = λ v m h e. ground (arith, length-le_bytes k v);
}

-- `()` takes no bytes.
unfoldable pub unit_to_bytes : ToBytes (Unit {0})
unit_to_bytes = record { max_size = some 0; to_bytes = λ v. return 0; byte_len = λ v. some 0 }

unfoldable pub unit_from_bytes : FromBytes (Unit {0})
unit_from_bytes = record { from_bytes = λ buf. ok (tt, 0) }

pub unit-IsCodec : IsCodec unit_to_bytes unit_from_bytes (λ _. []) (λ _. Unit {0})
unfolding unit_to_bytes unit_from_bytes
unit-IsCodec = record {
  writes = λ v h. record { fits = λ buf h. refl; too_small = λ buf h. absurd (omega arith) };
  reads = λ v rest h. refl;
  max_size_bound = λ v m h e. omega arith;
  byte_len_bound = λ v m h e. omega arith;
}

abbrev pub bool_byte : Bool → ℕ
bool_byte true = 1
bool_byte false = 0

unfoldable pub bool_to_bytes : ToBytes Bool
bool_to_bytes = record {
  max_size = some 1;
  to_bytes = λ b. (do require 1; store (bool_byte b ∷ []); return 1);
  byte_len = λ b. some 1;
}

unfoldable pub bool_from_bytes : FromBytes Bool
bool_from_bytes = record {
  from_bytes = elim [
    | [] ↦ err (unexpected_eof 1 0)
    | b ∷ rest ↦
        if b == 0
        then ok (false, 1)
        else if b == 1
        then ok (true, 1)
        else err (invalid_data "bool must be 0 or 1")
  ];
}

pub bool-IsCodec : IsCodec bool_to_bytes bool_from_bytes (λ b. bool_byte b ∷ []) (λ _. Unit {0})
unfolding bool_to_bytes bool_from_bytes
bool-IsCodec = record {
  writes = λ b h. store-Writes 1 (bool_byte b ∷ []) refl;
  reads = reads;
  max_size_bound = λ v m h e. ground arith;
  byte_len_bound = λ v m h e. ground arith;
}
  where
    reads :
        (b : Bool) (rest : List ℕ)
        → Unit {0}
        → bool_from_bytes.from_bytes (bool_byte b ∷ rest) ≡ ok (b, 1)
    reads true rest h = refl
    reads false rest h = refl

-- A decoder that decodes another type and then checks the value.
unfoldable pub checked_from_bytes {ℓ} :
    {A : Type ℓ} → FromBytes A → (A → Bool) → String → FromBytes A
checked_from_bytes r test message = record {
  from_bytes = λ buf.
      and_then (r.from_bytes buf) (λ p. if test p.0 then ok p else err (invalid_data message));
}

pub checked-IsCodec {ℓ} :
    {A : Type ℓ} (w : ToBytes A) (r : FromBytes A) (encoding : A → List ℕ)
    (Valid Narrow : A → Type 0) (test : A → Bool) (message : String)
    → IsCodec w r encoding Valid
    → ((v : A) → Narrow v → Valid v × (test v ≡ true))
    → IsCodec w (checked_from_bytes r test message) encoding Narrow
unfolding checked_from_bytes
checked-IsCodec w r encoding Valid Narrow test message c narrow = record {
  writes = λ v h. c.writes v (narrow v h).0;
  reads = λ v rest h. rw (c.reads v rest (narrow v h).0, (narrow v h).1);
  max_size_bound = λ v m h e. c.max_size_bound v m (narrow v h).0 e;
  byte_len_bound = λ v m h e. c.byte_len_bound v m (narrow v h).0 e;
}

-- The code points that are a `char`.
abbrev pub is_char : ℕ → Bool
is_char v = ltb v 0xd800 || (leb 0xe000 v && ltb v 0x110000)

unfoldable pub char_from_bytes : FromBytes ℕ
unfolding checked_from_bytes
char_from_bytes = checked_from_bytes (uint_from_bytes 4) is_char "invalid char codepoint"

abbrev pub char_to_bytes : ToBytes ℕ
char_to_bytes = uint_to_bytes 4

pub char-IsCodec : IsCodec char_to_bytes char_from_bytes (le_bytes 4) (λ v. is_char v ≡ true)
unfolding char_from_bytes
char-IsCodec = checked-IsCodec _ _ _ _ _ is_char _ (uint-IsCodec 4) (λ v h. (ground arith, h))

-- A `usize` of 64 bits goes by `u64`, and every `u64` is one.
unfoldable pub usize_from_bytes : FromBytes ℕ
unfolding checked_from_bytes
usize_from_bytes =
    checked_from_bytes (uint_from_bytes 8) (λ v. ltb v word)
      "u64 value exceeds usize on this platform"

abbrev pub usize_to_bytes : ToBytes ℕ
usize_to_bytes = uint_to_bytes 8

pub usize-IsCodec : IsCodec usize_to_bytes usize_from_bytes (le_bytes 8) (λ v. v < word)
unfolding usize_from_bytes
usize-IsCodec =
    checked-IsCodec _ _ _ _ _ (λ v. ltb v word) _ (uint-IsCodec 8) (λ v h. (h, lt→ltb v word h))

-- `impl_nonzero!`; the message names the type.
unfoldable pub nonzero_from_bytes : ℕ → String → FromBytes ℕ
unfolding checked_from_bytes
nonzero_from_bytes k message =
    checked_from_bytes (uint_from_bytes k) (λ v. if v == 0 then false else true) message

abbrev pub nonzero_to_bytes : ℕ → ToBytes ℕ
nonzero_to_bytes = uint_to_bytes

pub nonzero-IsCodec :
    (k : ℕ) (message : String)
    → IsCodec
        (nonzero_to_bytes k)
        (nonzero_from_bytes k message)
        (le_bytes k)
        (λ v. (0 < v) × (v < 256 ^ k))
unfolding nonzero_from_bytes
nonzero-IsCodec k message =
    checked-IsCodec _ _ _ _ _ (λ v. if v == 0 then false else true) message (uint-IsCodec k)
      (λ v h. (h.1, rw (ne→== v 0 (omega arith))))
