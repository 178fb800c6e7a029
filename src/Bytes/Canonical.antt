-- ===== src/Bytes/Canonical.antt =====
-- bytecast/src/impls/alloc.rs: the bytes of a `var_int`, read back by `decode`.
use native.Mathlib.Nat.{pow-suc, mul_assoc, mod-eq_of_lt, mul-le-mul_right, zero-add}
use native.Mathlib.Decide.{ℕ_discrete}
use Prim.Native.Nat.{bit_and, bit_or}
use abmac_lib.Prelude.{
  ℕ, zero, suc, ◌+◌, ◌*◌, ◌/◌, ◌%◌, ◌^◌, ◌≤◌, ◌<◌, ◌≡◌, refl, ap, ap₂, ◌∙◌, List, [], ◌∷◌, ◌++◌,
  length, drop, Result, ok, arith, ltb, dec_lt, subst, bit_or-shifted, lt→ltb, le→ltb, ne→==, eq→==,
  lt→leb, Bool, true, false, ◌==◌, ◌&&◌,
}
use abmac_lib.Bytes.{BytesError}
use abmac_lib.Bytes.Codec.{NoRoom, Writes}
use abmac_lib.Bytes.VarInt.{encode_at, encode, decode_at, decode_raw, decode, var_int_len}
use abmac_lib.Bytes.Groups.{
  groups, low_byte, low_bits, split-shift, groups_some, large_groups, small_groups, length-groups,
}

-- What the loop adds to its result for a byte.
joined_byte :
    (result shift b : ℕ)
    → result < 2 ^ shift
    → b % 128 * 2 ^ shift < 2 ^ 32
    → bit_or result (bit_and b 127 * 2 ^ shift % 2 ^ 32) ≡ result + b % 128 * 2 ^ shift
joined_byte result shift b lt fits =
    rw (low_bits b, mod-eq_of_lt fits) (bit_or-shifted shift result (b % 128) lt)

-- The loop at a last byte, and at a byte that another follows.
module _ (i result shift b : ℕ) (rest : List ℕ) (early : i ≤ 4) (lt : result < 2 ^ shift)
    (fits : b % 128 * 2 ^ shift < 2 ^ 32) (guard : (shift == 28 && ltb 15 b) ≡ false) where
  last_byte :
      b < 128 → decode_at i result shift (b ∷ rest) ≡ ok (result + b % 128 * 2 ^ shift, i + 1)
  unfolding decode_at
  last_byte h =
      rw (lt→leb 5 i (omega arith), guard, lt→ltb b 128 h)
        (ap (λ t. ok (t, i + 1)) (joined_byte result shift b lt fits))

  next_byte :
      128 ≤ b
      → decode_at i result shift (b ∷ rest)
        ≡ decode_at (i + 1) (result + b % 128 * 2 ^ shift) (shift + 7) rest
  unfolding decode_at
  next_byte h =
      rw (lt→leb 5 i (omega arith), guard, le→ltb b 128 h)
        (ap (λ t. decode_at (i + 1) t (shift + 7) rest) (joined_byte result shift b lt fits))

-- Before the fifth byte nothing is tested; a fifth one that fits has four bits.
early_guard : (i shift b : ℕ) → shift ≡ 7 * i → i ≤ 3 → (shift == 28 && ltb 15 b) ≡ false
early_guard i shift b e h = rw (ne→== shift 28 (λ q. omega arith)) refl

small_fifth : (shift b : ℕ) → shift ≡ 28 → b * 2 ^ shift < 2 ^ 32 → b ≤ 15
small_fifth shift b q fits =
    let concrete : b * 2 ^ 28 < 2 ^ 32 = subst (λ t. b * 2 ^ t < 2 ^ 32) q fits in omega arith

and_false : (b : Bool) → (b && false) ≡ false
and_false true = refl
and_false false = refl

small_guard : (shift b : ℕ) → b * 2 ^ shift < 2 ^ 32 → (shift == 28 && ltb 15 b) ≡ false
small_guard shift b fits = elim (ℕ_discrete shift 28) [
  | yes q ↦ rw (le→ltb 15 b (small_fifth shift b q fits)) (and_false (shift == 28))
  | no q ↦ rw (ne→== shift 28 q) refl
]

add_zero : (a : ℕ) → a + 0 ≡ a
add_zero a = omega arith

sucs : (a b : ℕ) → a + suc b ≡ suc (a + b)
sucs a b = omega arith

pow_plus : (a b : ℕ) → 2 ^ (a + b) ≡ 2 ^ a * 2 ^ b
pow_plus a zero = rw (add_zero a) (omega arith)
pow_plus a (suc b) =
    rw (sucs a b, pow-suc 2 (a + b), pow_plus a b, pow-suc 2 b) (mul_assoc (2 ^ a) (2 ^ b) 2)

pow_shift : (shift : ℕ) → 2 ^ (shift + 7) ≡ 2 ^ shift * 128
pow_shift shift = pow_plus shift 7

low_part : (v p m : ℕ) → v * p < m → v % 128 * p < m
low_part v p m h = omega (arith, split-shift v p)

high_part : (v shift m : ℕ) → v * 2 ^ shift < m → v / 128 * 2 ^ (shift + 7) < m
high_part v shift m h = rw (pow_shift shift) (omega (arith, split-shift v (2 ^ shift)))

-- The sum stays below the bit that comes next.
still_below :
    (result shift v : ℕ) → result < 2 ^ shift → result + v % 128 * 2 ^ shift < 2 ^ (shift + 7)
still_below result shift v lt =
    rw (pow_shift shift)
      (omega (arith, mul-le-mul_right {m = v % 128} {n = 127} (2 ^ shift) (omega arith)))

again : (v : ℕ) → (v % 128 + 128) % 128 ≡ v % 128
again v = omega arith

decoded :
    (n i result shift v : ℕ) (rest : List ℕ)
    → i + n ≡ 4
    → shift ≡ 7 * i
    → result < 2 ^ shift
    → v * 2 ^ shift < 2 ^ 32
    → decode_at i result shift (groups n v ++ rest)
      ≡ ok (result + v * 2 ^ shift, i + length (groups n v))
decoded zero i result shift v rest e s lt fits =
    subst (λ t. decode_at i result shift (v ∷ rest) ≡ ok (result + t * 2 ^ shift, i + 1))
      (mod-eq_of_lt (omega (arith, small)))
      (last_byte i result shift v rest (omega arith) lt (low_part v (2 ^ shift) (2 ^ 32) fits)
        (small_guard shift v fits) (omega (arith, small)))
  where
    small : v ≤ 15
    small = small_fifth shift v (omega arith) fits
decoded (suc n) i result shift v rest e s lt fits = elim (dec_lt v 128) [
  | yes h ↦ rw (lt→ltb v 128 h) (
      subst (λ t. decode_at i result shift (v ∷ rest) ≡ ok (result + t * 2 ^ shift, i + 1))
        (mod-eq_of_lt h)
        (last_byte i result shift v rest (omega arith) lt (low_part v (2 ^ shift) (2 ^ 32) fits)
          (early_guard i shift v s (omega arith)) h))
  | no h ↦ rw (le→ltb v 128 (omega arith)) (
      next_byte i result shift (v % 128 + 128) (groups n (v / 128) ++ rest) (omega arith) lt
        (rw (again v) (low_part v (2 ^ shift) (2 ^ 32) fits))
        (early_guard i shift (v % 128 + 128) s (omega arith)) (omega arith)
      ∙ ap
          (λ t. decode_at (i + 1) (result + t * 2 ^ shift) (shift + 7) (groups n (v / 128) ++ rest))
          (again v)
      ∙ decoded n (i + 1) (result + v % 128 * 2 ^ shift) (shift + 7) (v / 128) rest (omega arith)
          (omega arith) (still_below result shift v lt) (high_part v shift (2 ^ 32) fits)
      ∙ ap₂ (λ t k. ok (t, k)) (rw (pow_shift shift) (omega (arith, split-shift v (2 ^ shift))))
          (omega arith))
]

decoded_whole :
    (v : ℕ) (rest : List ℕ)
    → v < 2 ^ 32
    → decode_at 0 0 0 (groups 4 v ++ rest) ≡ ok (v, var_int_len v)
decoded_whole v rest h =
    decoded 4 0 0 0 v rest refl refl (omega arith) (omega arith)
    ∙ ap₂ (λ t k. ok (t, k)) value (omega (arith, length-groups v h))
  where
    value : 0 + v * 2 ^ 0 ≡ v
    value = omega arith

-- `decode` reads the bytes of a `u32` back, and consumes nothing of what follows.
pub decode-groups :
    (v : ℕ) (rest : List ℕ) → v < 2 ^ 32 → decode (groups 4 v ++ rest) ≡ ok (v, var_int_len v)
unfolding decode decode_raw
decode-groups v rest h =
    rw (decoded_whole v rest h, eq→== (var_int_len v) (var_int_len v) refl) refl

-- The loop that writes, with room for all groups.
encoded :
    (n i v : ℕ) (buf : List ℕ)
    → v < 128 ^ suc n
    → length (groups n v) ≤ length buf
    → encode_at i v buf
      ≡ (ok (i + length (groups n v)), groups n v ++ drop (length (groups n v)) buf)
unfolding encode_at
encoded zero i v [] lt h = absurd (omega arith)
encoded zero i v (b ∷ bs) lt h = rw (lt→ltb v 128 (omega arith)) refl
encoded (suc n) i v [] lt h = absurd (omega (arith, groups_some (suc n) v))
encoded (suc n) i v (b ∷ bs) lt h = elim (dec_lt v 128) [
  | yes small ↦ rw (lt→ltb v 128 small) refl
  | no large ↦ rw (le→ltb v 128 (omega arith)) (
      ap₂ (λ t low. (t.0, low ∷ t.1))
        (encoded n (i + 1) (v / 128) bs (omega (arith, pow-suc 128 (suc n)))
          (omega (arith, large_groups n v (omega arith))))
        (low_byte v)
      ∙ ap
          (λ k.
            (ok k, (v % 128 + 128) ∷ groups n (v / 128) ++ drop (length (groups n (v / 128))) bs))
          (omega arith))
]

wider :
    (low b : ℕ) (bs : List ℕ) (out : Result BytesError ℕ × List ℕ)
    → NoRoom bs out
    → NoRoom (b ∷ bs) (out.0, low ∷ out.1)
wider low b bs out (needed, available, e, l) = (needed, available, e, ap suc l)

-- The loop that writes, without room for all.
cut :
    (n i v : ℕ) (buf : List ℕ)
    → v < 128 ^ suc n
    → length buf < length (groups n v)
    → NoRoom buf (encode_at i v buf)
unfolding encode_at
cut n i v [] lt h = (i + 1, i, refl, refl)
cut zero i v (b ∷ bs) lt h = absurd (omega arith)
cut (suc n) i v (b ∷ bs) lt h = elim (dec_lt v 128) [
  | yes small ↦ absurd (omega (arith, small_groups n v small))
  | no large ↦ rw (le→ltb v 128 (omega arith)) (
      wider (bit_or (bit_and (v % 256) 127) 128) b bs (encode_at (i + 1) (v / 128) bs) (
        cut n (i + 1) (v / 128) bs (omega (arith, pow-suc 128 (suc n)))
          (omega (arith, large_groups n v (omega arith)))))
]

-- `encode` writes these bytes, or fails for want of room.
pub encode-Writes : (v : ℕ) → v < 2 ^ 32 → Writes (encode v) (groups 4 v)
unfolding encode
encode-Writes v h = record {
  fits = λ buf room.
      encoded 4 0 v buf (omega arith) room
      ∙ ap (λ k. (ok k, groups 4 v ++ drop (length (groups 4 v)) buf))
          (zero-add (length (groups 4 v)));
  too_small = λ buf short. cut 4 0 v buf (omega arith) short;
}

-- `encode` writes a number below `2 ^ 32` to a buffer that has room for as many bytes as `len`
-- says, and `decode` reads it back from the buffer and consumes that many.
pub decode-encode :
    (v : ℕ) (buf : List ℕ)
    → v < 2 ^ 32
    → var_int_len v ≤ length buf
    → ((encode v buf).0 ≡ ok (var_int_len v)) × (decode (encode v buf).1 ≡ ok (v, var_int_len v))
decode-encode v buf h room =
    rw (written) (ap ok (length-groups v h), decode-groups v (drop (length (groups 4 v)) buf) h)
  where
    written :
        encode v buf ≡ (ok (length (groups 4 v)), groups 4 v ++ drop (length (groups 4 v)) buf)
    written = (encode-Writes v h).fits buf (omega (arith, length-groups v h))
