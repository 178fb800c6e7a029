-- ===== src/Bytes/Groups.antt =====
-- bytecast/src/impls/alloc.rs: the groups of seven bits that a `var_int` consists of.
use native.Mathlib.Nat.{mul_assoc, mul_comm, add-mul}
use Prim.Native.Nat.{bit_and, bit_or}
use abmac_lib.Prelude.{
  ℕ, zero, suc, ◌+◌, ◌*◌, ◌/◌, ◌%◌, ◌^◌, ◌≤◌, ◌<◌, ◌≡◌, refl, ap, ◌∙◌, List, [], ◌∷◌, length, arith,
  ltb, if◌then◌else◌, dec_lt, bit_and-mask, bit_or-shifted, lt→ltb, le→ltb,
}
use abmac_lib.Bytes.VarInt.{var_int_len}

-- The bytes of a number of at most `n + 1` groups of seven bits.
abbrev pub groups : ℕ → ℕ → List ℕ
groups zero v = v ∷ []
groups (suc n) v = if ltb v 128 then v ∷ [] else (v % 128 + 128) ∷ groups n (v / 128)

pub low_byte : (v : ℕ) → bit_or (bit_and (v % 256) 127) 128 ≡ v % 128 + 128
low_byte v =
    rw (bit_and-mask 7 (v % 256)) (bit_or-shifted 7 (v % 256 % 128) 1 (omega arith) ∙ omega arith)

pub low_bits : (b : ℕ) → bit_and b 127 ≡ b % 128
low_bits b = bit_and-mask 7 b

pub split-shift : (v p : ℕ) → v * p ≡ v % 128 * p + v / 128 * (p * 128)
split-shift v p =
    ap (λ t. t * p) (halves v)
    ∙ add-mul (v % 128) (v / 128 * 128) p
    ∙ ap (λ t. v % 128 * p + t) (mul_assoc (v / 128) 128 p ∙ ap (λ t. v / 128 * t) (mul_comm 128 p))
  where
    halves : (a : ℕ) → a ≡ a % 128 + a / 128 * 128
    halves a = omega arith

pub groups_some : (n v : ℕ) → 1 ≤ length (groups n v)
groups_some zero v = omega arith
groups_some (suc n) v = elim (dec_lt v 128) [
  | yes small ↦ rw (lt→ltb v 128 small) (omega arith)
  | no large ↦ rw (le→ltb v 128 (omega arith)) (omega arith)
]

pub large_groups :
    (n v : ℕ) → 128 ≤ v → length (groups (suc n) v) ≡ suc (length (groups n (v / 128)))
large_groups n v h = rw (le→ltb v 128 h) refl

pub small_groups : (n v : ℕ) → v < 128 → length (groups (suc n) v) ≡ 1
small_groups n v h = rw (lt→ltb v 128 h) refl

-- `len` is the number of bytes that are written.
pub length-groups : (v : ℕ) → v < 2 ^ 32 → length (groups 4 v) ≡ var_int_len v
unfolding var_int_len
length-groups v h = ground arith
