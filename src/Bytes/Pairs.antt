-- ===== src/Bytes/Pairs.antt =====
-- bytecast/src/impls/tuple.rs and mod.rs: pairs and ranges over types that are encoded.
use abmac_lib.Prelude.{
  drop-append_self, ℕ, ◌+◌, ◌*◌, ◌≡◌, refl, List, ◌++◌, Option, none, some, length, drop, arith, ok,
  and_then, ltb, if◌then◌else◌, length-append, append_assoc, word, wrapping_add, sym, ◌∙◌, ◌<◌,
  some-inj,
}
use native.Mathlib.Nat.{mod-eq_of_lt}
use abmac_lib.Bytes.{ToBytes, FromBytes}
use abmac_lib.Bytes.Codec.{IsCodec, then_write, then_write-Writes}

-- `Some(a? + b?)`, where the sum of two `usize` goes round.
abbrev pub add_sizes : Option ℕ → Option ℕ → Option ℕ
add_sizes (some a) (some b) = some (wrapping_add a b)
add_sizes a b = none

-- Two sizes, if they are known, whose sum is a `usize`.
abbrev pub IsSmall : Option ℕ → Option ℕ → Type 0
IsSmall none b = Unit {0}
IsSmall (some a) none = Unit {0}
IsSmall (some a) (some b) = a + b < word

-- `checked_add` of `MAX_SIZE`s: `None` past a `usize`.
abbrev pub add_max_size : Option ℕ → Option ℕ → Option ℕ
add_max_size (some a) (some b) = if ltb (a + b) word then some (a + b) else none
add_max_size a b = none

add_max_size-some :
    (a b : Option ℕ) (m : ℕ)
    → add_max_size a b ≡ some m
    → (s : ℕ) × (t : ℕ) × (a ≡ some s) × (b ≡ some t) × (m ≡ s + t)
add_max_size-some (some s) (some t) m e = (s, t, refl, refl, ground arith)
add_max_size-some none b m e = cc
add_max_size-some (some s) none m e = cc

add_sizes-some :
    (a b : Option ℕ) (m : ℕ)
    → IsSmall a b
    → add_sizes a b ≡ some m
    → (s : ℕ) × (t : ℕ) × (a ≡ some s) × (b ≡ some t) × (m ≡ s + t)
add_sizes-some (some s) (some t) m small e =
    (s, t, refl, refl, some-inj (sym e) ∙ mod-eq_of_lt small)
add_sizes-some none b m small e = cc
add_sizes-some (some s) none m small e = cc

module _ {ℓ κ} {A : Type ℓ} {B : Type κ} where
  -- Components that are encoded, and sizes whose sum does not go round.
  abbrev pub PairValid : ToBytes A → (A → Type 0) → ToBytes B → (B → Type 0) → A × B → Type 0
  PairValid w Valid x Valid' p = Valid p.0 × Valid' p.1 × IsSmall (w.byte_len p.0) (x.byte_len p.1)

  -- `impl_tuple!` at two components.
  unfoldable pub pair_to_bytes : ToBytes A → ToBytes B → ToBytes (A × B)
  pair_to_bytes w x = record {
    max_size = add_max_size w.max_size x.max_size;
    to_bytes = λ p. then_write (w.to_bytes p.0) (x.to_bytes p.1);
    byte_len = λ p. add_sizes (w.byte_len p.0) (x.byte_len p.1);
  }

  -- Two values, the second read behind the first.
  unfoldable pub pair_from_bytes : FromBytes A → FromBytes B → FromBytes (A × B)
  pair_from_bytes r y = record {
    from_bytes = λ buf.
        and_then (r.from_bytes buf)
          λ (a, n₁). and_then (y.from_bytes (drop n₁ buf)) λ (b, n₂). ok ((a, b), n₁ + n₂);
  }

  module _ (w : ToBytes A) (r : FromBytes A) (enc : A → List ℕ) (Valid : A → Type 0) (x : ToBytes B)
      (y : FromBytes B) (enc' : B → List ℕ) (Valid' : B → Type 0) (c : IsCodec w r enc Valid)
      (d : IsCodec x y enc' Valid') where
    pair-reads :
        (p : A × B) (rest : List ℕ)
        → PairValid w Valid x Valid' p
        → (pair_from_bytes r y).from_bytes ((enc p.0 ++ enc' p.1) ++ rest)
          ≡ ok (p, length (enc p.0 ++ enc' p.1))
    unfolding pair_from_bytes
    pair-reads (a, b) rest h = rw (
      append_assoc,
      c.reads a (enc' b ++ rest) h.0,
      drop-append_self (enc a) (enc' b ++ rest),
      d.reads b rest h.1,
      length-append,
    )

    -- If the implementations for two types belong together, so do those for the pairs of values
    -- that are encoded and whose announced sizes, where both are known, add up to less than `2 ^
    -- 64`; such pairs are written and read as the components, one behind the other.
    pub pair-IsCodec :
        IsCodec
          (pair_to_bytes w x)
          (pair_from_bytes r y)
          (λ p. enc p.0 ++ enc' p.1)
          (PairValid w Valid x Valid')
    unfolding pair_to_bytes
    pair-IsCodec = record {
      writes = λ p h.
          then_write-Writes (w.to_bytes p.0) (x.to_bytes p.1) (enc p.0) (enc' p.1)
            (c.writes p.0 h.0) (d.writes p.1 h.1);
      reads = pair-reads;
      max_size_bound = λ p m h e.
          let (s, t, first, second, total) = add_max_size-some w.max_size x.max_size m e in
          rw (length-append, total)
            (omega (arith, c.max_size_bound p.0 s h.0 first, d.max_size_bound p.1 t h.1 second));
      byte_len_bound = λ p m h e.
          let (s, t, first, second, total) =
            add_sizes-some (w.byte_len p.0) (x.byte_len p.1) m h.2 e in
          rw (length-append, total)
            (omega (arith, c.byte_len_bound p.0 s h.0 first, d.byte_len_bound p.1 t h.1 second));
    }

-- `Some(s * 2)` of a size; a constant that does not fit into a `usize` is refused when it is
-- compiled.
abbrev pub twice : Option ℕ → Option ℕ
twice none = none
twice (some s) = some (s * 2)

twice-some : (o : Option ℕ) (m : ℕ) → twice o ≡ some m → (s : ℕ) × (o ≡ some s) × (m ≡ s * 2)
twice-some none m e = cc
twice-some (some s) m e = (s, refl, ground arith)

-- `Range<T>`
pub record Range {ℓ} (A : Type ℓ) : Type ℓ where
  pub start : A
  pub end : A

module _ {ℓ} {A : Type ℓ} where
  abbrev pub RangeValid : ToBytes A → (A → Type 0) → Range A → Type 0
  RangeValid w Valid p =
      Valid p.start × Valid p.end × IsSmall (w.byte_len p.start) (w.byte_len p.end)

  unfoldable pub range_to_bytes : ToBytes A → ToBytes (Range A)
  range_to_bytes w = record {
    max_size = twice w.max_size;
    to_bytes = λ r. then_write (w.to_bytes r.start) (w.to_bytes r.end);
    byte_len = λ r. add_sizes (w.byte_len r.start) (w.byte_len r.end);
  }

  unfoldable pub range_from_bytes : FromBytes A → FromBytes (Range A)
  range_from_bytes r = record {
    from_bytes = λ buf. and_then (r.from_bytes buf) λ (a, n₁).
        and_then (r.from_bytes (drop n₁ buf))
          λ (b, n₂). ok (record { start = a; end = b }, n₁ + n₂);
  }

  module _ (w : ToBytes A) (r : FromBytes A) (enc : A → List ℕ) (Valid : A → Type 0)
      (c : IsCodec w r enc Valid) where
    range-reads :
        (p : Range A) (rest : List ℕ)
        → RangeValid w Valid p
        → (range_from_bytes r).from_bytes ((enc p.start ++ enc p.end) ++ rest)
          ≡ ok (p, length (enc p.start ++ enc p.end))
    unfolding range_from_bytes
    range-reads p rest h = rw (
      append_assoc,
      c.reads p.start (enc p.end ++ rest) h.0,
      drop-append_self (enc p.start) (enc p.end ++ rest),
      c.reads p.end rest h.1,
      length-append,
    )

    -- If the implementations for a type belong together, so do those for its ranges, which are
    -- written and read as the start and then the end; neither needs to be the smaller. The sizes that
    -- these announce add up to a `usize`.
    pub range-IsCodec :
        IsCodec
          (range_to_bytes w)
          (range_from_bytes r)
          (λ p. enc p.start ++ enc p.end)
          (RangeValid w Valid)
    unfolding range_to_bytes
    range-IsCodec = record {
      writes = λ p h.
          then_write-Writes (w.to_bytes p.start) (w.to_bytes p.end) (enc p.start) (enc p.end)
            (c.writes p.start h.0) (c.writes p.end h.1);
      reads = range-reads;
      max_size_bound = λ p m h e.
          let (s, first, total) = twice-some w.max_size m e in
          rw (length-append, total)
            (omega
              (arith, c.max_size_bound p.start s h.0 first, c.max_size_bound p.end s h.1 first));
      byte_len_bound = λ p m h e.
          let (s, t, first, second, total) =
            add_sizes-some (w.byte_len p.start) (w.byte_len p.end) m h.2 e in
          rw (length-append, total)
            (omega
              (arith, c.byte_len_bound p.start s h.0 first, c.byte_len_bound p.end t h.1 second));
    }
