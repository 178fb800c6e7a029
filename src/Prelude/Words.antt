-- ===== src/Prelude/Words.antt =====
-- Words of 64 bits (`usize`, `u64`): wrapping sums and differences, and masks by a power of two.
use Prim.Native.Nat.{
  ℕ, zero, suc, ◌+◌, ◌-◌, ◌*◌, ◌/◌, ◌%◌, ◌^◌, ◌≤◌, ◌<◌, ◌∣◌, min, max, bit_and, bit_or, digits,
  bit_and-bitwise, bit_or-bitwise,
}
use mathlib.Core.Path.{◌≡◌, sym, ap, ◌∙◌}
use native.Mathlib.Nat.{
  mod-mod_of_dvd, mod-add-mod, mod-eq_of_lt, mod-eq-sub-mod, mod-lt, pow-suc,
  add-mul-mod_self_right, div-add-mod, dvd-mul_right_of_dvd, dvd_refl, zero-add, mul_assoc,
}
use Prim.Native.Nat.add
use abmac_lib.Prelude.Tests.{ltb, if◌then◌else◌, lt→ltb, le→ltb}
use native.Mathlib.Decide.{dec_lt}
use native.Mathlib.Omega.{arith}

abbrev pub word : ℕ
word = 2 ^ 64

abbrev pub wrapping_add : ℕ → ℕ → ℕ
wrapping_add a b = (a + b) % word

abbrev pub wrapping_sub : ℕ → ℕ → ℕ
wrapping_sub a b = (a + word - b) % word

abbrev pub saturating_add : ℕ → ℕ → ℕ
saturating_add a b = min (a + b) (word - 1)

pub pow_pos : (k : ℕ) → 1 ≤ 2 ^ k
pow_pos zero = omega arith
pow_pos (suc k) = omega (arith, pow-suc 2 k, pow_pos k)

halve-mod : (a m : ℕ) → 1 ≤ m → a % (m * 2) ≡ a / 2 % m * 2 + a % 2
halve-mod a m h =
    ap (λ t. t % (m * 2)) split
    ∙ add-mul-mod_self_right (a / 2 % m * 2 + a % 2) (a / 2 / m) (m * 2)
    ∙ mod-eq_of_lt (omega (arith, mod-lt (a / 2) {m = m} h))
  where
    split : a ≡ a / 2 % m * 2 + a % 2 + a / 2 / m * (m * 2)
    split = omega (arith, div-add-mod (a / 2) m)

module _ (k : ℕ) where
  -- The digits of `2^(k+1) - 1`: a one, and those of `2^k - 1`.
  ones-half : (2 ^ suc k - 1) / 2 ≡ 2 ^ k - 1
  ones-half = omega (arith, pow-suc 2 k, pow_pos k)

  ones-odd : (2 ^ suc k - 1) % 2 ≡ 1
  ones-odd = omega (arith, pow-suc 2 k, pow_pos k)

zero-mod-pow : (k : ℕ) → 0 ≡ 0 % 2 ^ k
zero-mod-pow k = sym (mod-eq_of_lt (pow_pos k))

-- The conjunction with `k` ones, digit by digit, with enough digits to go.
masked : (n k a : ℕ) → a ≤ n → digits (λ b. zero) min n a (2 ^ k - 1) ≡ a % 2 ^ k
masked zero k zero h = zero-mod-pow k
masked zero k (suc a) h = absurd (omega arith)
masked (suc n) k zero h = zero-mod-pow k
masked (suc n) zero (suc a) h = omega (arith, masked n 0 (suc a / 2) (omega arith))
masked (suc n) (suc k) (suc a) h =
    rw
      (
        ones-half k,
        ones-odd k,
        masked n k (suc a / 2) (omega arith),
        pow-suc 2 k,
        halve-mod (suc a) (2 ^ k) (pow_pos k),
      )
      (omega arith)

-- `x & (2^k - 1)` is the remainder by `2^k`.
pub bit_and-mask : (k a : ℕ) → bit_and a (2 ^ k - 1) ≡ a % 2 ^ k
bit_and-mask k a = bit_and-bitwise a (2 ^ k - 1) ∙ masked a k a (omega arith)

-- The disjunction of numbers that share no digit, digit by digit, with enough digits to go.
joined : (n k a b : ℕ) → a ≤ n → a < 2 ^ k → digits (λ b. b) max n a (b * 2 ^ k) ≡ a + b * 2 ^ k
joined zero k zero b h lt = sym (zero-add (b * 2 ^ k))
joined zero k (suc a) b h lt = absurd (omega arith)
joined (suc n) k zero b h lt = sym (zero-add (b * 2 ^ k))
joined (suc n) zero (suc a) b h lt = absurd (omega arith)
joined (suc n) (suc k) (suc a) b h lt =
    rw (doubled, halved, even, joined n k (suc a / 2) b (omega arith) (omega (arith, pow-suc 2 k)))
      (omega arith)
  where
    doubled : b * 2 ^ suc k ≡ b * 2 ^ k * 2
    doubled = ap (λ t. b * t) (pow-suc 2 k) ∙ sym (mul_assoc b (2 ^ k) 2)

    halved : b * 2 ^ k * 2 / 2 ≡ b * 2 ^ k
    halved = omega arith

    even : b * 2 ^ k * 2 % 2 ≡ 0
    even = omega arith

-- `a | b << k` is a sum, if `a` has at most `k` digits.
pub bit_or-shifted : (k a b : ℕ) → a < 2 ^ k → bit_or a (b * 2 ^ k) ≡ a + b * 2 ^ k
bit_or-shifted k a b lt = bit_or-bitwise a (b * 2 ^ k) ∙ joined a k a b (omega arith) lt

-- Sums that go round at `2 ^ 64` and then at a divisor of it go round at the divisor.
pub wrapping-mod : (a n : ℕ) → n ∣ word → a % word % n ≡ a % n
wrapping-mod a n d = mod-mod_of_dvd n a d

pow-dvd-add : (d k : ℕ) → 2 ^ k ∣ 2 ^ (d + k)
pow-dvd-add zero k = rw zero-add (dvd_refl (2 ^ k))
pow-dvd-add (suc d) k =
    rw (add.suc d k, pow-suc 2 (d + k)) (dvd-mul_right_of_dvd (2 ^ k) (pow-dvd-add d k) 2)

pub pow-dvd-word : (k : ℕ) → k ≤ 64 → 2 ^ k ∣ word
pow-dvd-word k h = rw (ap (λ t. 2 ^ t) total) at (pow-dvd-add (64 - k) k)
  where
    total : 64 - k + k ≡ 64
    total = omega arith

-- One step round: a sum of two numbers below `n`.
mod-cases : (n a i : ℕ) → a < n → i < n → (a + i) % n ≡ (if ltb (a + i) n then a + i else a + i - n)
mod-cases n a i ha hi = elim (dec_lt (a + i) n) [
  | yes p ↦ rw (mod-eq_of_lt p, lt→ltb (a + i) n p)
  | no p ↦
      rw (mod-eq-sub-mod {n = a + i} {m = n} (omega arith), le→ltb (a + i) n (omega arith))
        (mod-eq_of_lt (omega arith))
]

-- Two offsets below `n` that lead to the same place are equal.
pub add-mod-inj : (n h i j : ℕ) → i < n → j < n → (h + i) % n ≡ (h + j) % n → i ≡ j
add-mod-inj n h i j hi hj e = ground (
  arith,
  mod-lt h {m = n} (omega arith),
  mod-cases n (h % n) i,
  mod-cases n (h % n) j,
  mod-add-mod h n i,
  mod-add-mod h n j,
)
