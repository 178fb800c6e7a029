-- ===== src/Bytes/Composites.antt =====
-- bytecast/src/impls/mod.rs and tuple.rs: `Option`, `Result`, the ranges and pairs over any types
-- that are encoded.
use abmac_lib.Prelude.{
  ℕ, ◌+◌, ◌≤◌, ◌≡◌, refl, ap, fun_ext, inl, inr, List, [], ◌∷◌, ◌++◌, Option, none, some, length,
  arith, Result, ok, err, word, wrapping_add, sym, ◌∙◌, ◌<◌, some-inj, ltb, ◌==◌, if◌then◌else◌,
  Bool-cases,
}
use abmac_lib.Prelude.Results.{map_ok}
use native.Mathlib.Nat.{mod-eq_of_lt}
use abmac_lib.Bytes.{
  invalid_data, unexpected_eof, Write, ◌>>=◌, ◌>>◌, return, within, require, store, ToBytes,
  FromBytes,
}
use abmac_lib.Bytes.Codec.{Writes, IsCodec, then_write, then_write-Writes}
use abmac_lib.Bytes.Primitives.{store-Writes}

-- A discriminant byte, and behind it the payload.
abbrev pub tagged : ℕ → Write ℕ → Write ℕ
tagged t m = do require 1; store (t ∷ []); n ← within 1 m; return (1 + n)

abbrev write_tag : ℕ → Write ℕ
write_tag t = do require 1; store (t ∷ []); return 1

tagged-eq : (t : ℕ) (m : Write ℕ) → tagged t m ≡ then_write (write_tag t) m
tagged-eq t m =
    fun_ext
      λ buf. elim (Bool-cases (ltb (length buf) 1)) [ inl short ↦ rw short | inr long ↦ rw long ]

tagged-Writes :
    (t : ℕ) (m : Write ℕ) (bytes : List ℕ) → Writes m bytes → Writes (tagged t m) (t ∷ bytes)
tagged-Writes t m bytes w =
    rw (tagged-eq t m)
      (then_write-Writes (write_tag t) m (t ∷ []) bytes (store-Writes 1 (t ∷ []) refl) w)

-- `Some(1 + s)` of a size that is a constant, and `None` of none; one that does not fit into a
-- `usize` is refused when it is compiled.
abbrev pub one_more : Option ℕ → Option ℕ
one_more none = none
one_more (some s) = some (1 + s)

one_more-some : (o : Option ℕ) (m : ℕ) → one_more o ≡ some m → (s : ℕ) × (o ≡ some s) × (m ≡ 1 + s)
one_more-some none m e = cc
one_more-some (some s) m e = (s, refl, ground arith)

-- `Some(1 + inner)`, where the sum of two `usize` goes round.
abbrev pub one_longer : Option ℕ → Option ℕ
one_longer none = none
one_longer (some s) = some (wrapping_add 1 s)

-- A size, if it is known, that leaves room for one more.
abbrev pub HasSpare : Option ℕ → Type 0
HasSpare none = Unit {0}
HasSpare (some s) = 1 + s < word

one_longer-some :
    (o : Option ℕ) (m : ℕ)
    → HasSpare o
    → one_longer o ≡ some m
    → (s : ℕ) × (o ≡ some s) × (m ≡ 1 + s)
one_longer-some none m spare e = cc
one_longer-some (some s) m spare e = (s, refl, some-inj (sym e) ∙ mod-eq_of_lt spare)

abbrev pub max_of : Option ℕ → Option ℕ → Option ℕ
max_of (some a) (some b) = if ltb b a then some a else some b
max_of a b = none

max_of-some :
    (a b : Option ℕ) (m : ℕ)
    → max_of a b ≡ some m
    → (s : ℕ) × (t : ℕ) × (a ≡ some s) × (b ≡ some t) × (s ≤ m) × (t ≤ m)
max_of-some (some s) (some t) m e = (s, t, refl, refl, ground arith, ground arith)
max_of-some none b m e = cc
max_of-some (some s) none m e = cc

module _ {ℓ} {A : Type ℓ} where
  -- `byte_len` is the default of the trait, `MAX_SIZE`.
  unfoldable pub option_to_bytes : ToBytes A → ToBytes (Option A)
  option_to_bytes w = record {
    max_size = one_more w.max_size;
    to_bytes = elim [
      | none ↦ (do require 1; store (0 ∷ []); return 1)
      | some v ↦ tagged 1 (w.to_bytes v)
    ];
    byte_len = λ v. one_more w.max_size;
  }

  unfoldable pub option_from_bytes : FromBytes A → FromBytes (Option A)
  option_from_bytes r = record {
    from_bytes = elim [
      | [] ↦ err (unexpected_eof 1 0)
      | b ∷ rest ↦
          if b == 0
          then ok (none, 1)
          else if b == 1
          then map_ok (λ p. (some p.0, 1 + p.1)) (r.from_bytes rest)
          else err (invalid_data "Option discriminant must be 0 or 1")
    ];
  }

  abbrev pub option_encoding : (A → List ℕ) → Option A → List ℕ
  option_encoding enc none = 0 ∷ []
  option_encoding enc (some v) = 1 ∷ enc v

  abbrev pub OptionValid : (A → Type 0) → Option A → Type 0
  OptionValid Valid none = Unit {0}
  OptionValid Valid (some v) = Valid v

  module _ (w : ToBytes A) (r : FromBytes A) (enc : A → List ℕ) (Valid : A → Type 0)
      (c : IsCodec w r enc Valid) where
    option-Writes :
        (v : Option A)
        → OptionValid Valid v
        → Writes ((option_to_bytes w).to_bytes v) (option_encoding enc v)
    unfolding option_to_bytes
    option-Writes none h = store-Writes 1 (0 ∷ []) refl
    option-Writes (some v) h = tagged-Writes 1 (w.to_bytes v) (enc v) (c.writes v h)

    option-reads :
        (v : Option A) (rest : List ℕ)
        → OptionValid Valid v
        → (option_from_bytes r).from_bytes (option_encoding enc v ++ rest)
          ≡ ok (v, length (option_encoding enc v))
    unfolding option_from_bytes
    option-reads none rest h = refl
    option-reads (some v) rest h = rw (c.reads v rest h) (ap (λ k. ok (some v, k)) (omega arith))

    option-bound :
        (v : Option A) (m : ℕ)
        → OptionValid Valid v
        → one_more w.max_size ≡ some m
        → length (option_encoding enc v) ≤ m
    option-bound none m h e =
        let (s, _, total) = one_more-some w.max_size m e in omega (arith, total)
    option-bound (some v) m h e =
        let (s, size, total) = one_more-some w.max_size m e in
        omega (arith, total, c.max_size_bound v s h size)

    -- If the implementations for a type belong together, so do those for its options: a byte 0, or
    -- a byte 1 and the value, is what is written and read, with room for it or an error, and the
    -- sizes announced are enough.
    pub option-IsCodec :
        IsCodec (option_to_bytes w) (option_from_bytes r) (option_encoding enc) (OptionValid Valid)
    unfolding option_to_bytes
    option-IsCodec = record {
      writes = option-Writes;
      reads = option-reads;
      max_size_bound = option-bound;
      byte_len_bound = option-bound;
    }

module _ {ℓ κ} {A : Type ℓ} {E : Type κ} where
  unfoldable pub result_to_bytes : ToBytes A → ToBytes E → ToBytes (Result E A)
  result_to_bytes w x = record {
    max_size = one_more (max_of w.max_size x.max_size);
    to_bytes = elim [ ok v ↦ tagged 0 (w.to_bytes v) | err e ↦ tagged 1 (x.to_bytes e) ];
    byte_len = elim [ ok v ↦ one_longer (w.byte_len v) | err e ↦ one_longer (x.byte_len e) ];
  }

  unfoldable pub result_from_bytes : FromBytes A → FromBytes E → FromBytes (Result E A)
  result_from_bytes r y = record {
    from_bytes = elim [
      | [] ↦ err (unexpected_eof 1 0)
      | b ∷ rest ↦
          if b == 0
          then map_ok (λ p. (ok p.0, 1 + p.1)) (r.from_bytes rest)
          else if b == 1
          then map_ok (λ p. (err p.0, 1 + p.1)) (y.from_bytes rest)
          else err (invalid_data "Result discriminant must be 0 or 1")
    ];
  }

  abbrev pub result_encoding : (A → List ℕ) → (E → List ℕ) → Result E A → List ℕ
  result_encoding enc enc' (ok v) = 0 ∷ enc v
  result_encoding enc enc' (err e) = 1 ∷ enc' e

  abbrev pub ResultValid : ToBytes A → (A → Type 0) → ToBytes E → (E → Type 0) → Result E A → Type 0
  ResultValid w Valid x Valid' (ok v) = Valid v × HasSpare (w.byte_len v)
  ResultValid w Valid x Valid' (err e) = Valid' e × HasSpare (x.byte_len e)

  module _ (w : ToBytes A) (r : FromBytes A) (enc : A → List ℕ) (Valid : A → Type 0) (x : ToBytes E)
      (y : FromBytes E) (enc' : E → List ℕ) (Valid' : E → Type 0) (c : IsCodec w r enc Valid)
      (d : IsCodec x y enc' Valid') where
    result-Writes :
        (v : Result E A)
        → ResultValid w Valid x Valid' v
        → Writes ((result_to_bytes w x).to_bytes v) (result_encoding enc enc' v)
    unfolding result_to_bytes
    result-Writes (ok v) h = tagged-Writes 0 (w.to_bytes v) (enc v) (c.writes v h.0)
    result-Writes (err e) h = tagged-Writes 1 (x.to_bytes e) (enc' e) (d.writes e h.0)

    result-reads :
        (v : Result E A) (rest : List ℕ)
        → ResultValid w Valid x Valid' v
        → (result_from_bytes r y).from_bytes (result_encoding enc enc' v ++ rest)
          ≡ ok (v, length (result_encoding enc enc' v))
    unfolding result_from_bytes
    result-reads (ok v) rest h = rw (c.reads v rest h.0) (ap (λ k. ok (ok v, k)) (omega arith))
    result-reads (err e) rest h = rw (d.reads e rest h.0) (ap (λ k. ok (err e, k)) (omega arith))

    result-max :
        (v : Result E A) (m : ℕ)
        → ResultValid w Valid x Valid' v
        → one_more (max_of w.max_size x.max_size) ≡ some m
        → length (result_encoding enc enc' v) ≤ m
    result-max (ok v) m h e =
        let (s, larger, total) = one_more-some (max_of w.max_size x.max_size) m e in
        let (a, b, first, second, le, le') = max_of-some w.max_size x.max_size s larger in
        omega (arith, total, le, c.max_size_bound v a h.0 first)
    result-max (err v) m h e =
        let (s, larger, total) = one_more-some (max_of w.max_size x.max_size) m e in
        let (a, b, first, second, le, le') = max_of-some w.max_size x.max_size s larger in
        omega (arith, total, le', d.max_size_bound v b h.0 second)

    result-hint :
        (v : Result E A) (m : ℕ)
        → ResultValid w Valid x Valid' v
        → (result_to_bytes w x).byte_len v ≡ some m
        → length (result_encoding enc enc' v) ≤ m
    unfolding result_to_bytes
    result-hint (ok v) m h e =
        let (s, size, total) = one_longer-some (w.byte_len v) m h.1 e in
        omega (arith, total, c.byte_len_bound v s h.0 size)
    result-hint (err v) m h e =
        let (s, size, total) = one_longer-some (x.byte_len v) m h.1 e in
        omega (arith, total, d.byte_len_bound v s h.0 size)

    -- If the implementations for two types belong together, so do those for the results over them:
    -- a byte 0 and the value, or a byte 1 and the error, is what is written and read. A result is one
    -- whose payload is encoded and announces a size that leaves room for one more.
    pub result-IsCodec :
        IsCodec
          (result_to_bytes w x)
          (result_from_bytes r y)
          (result_encoding enc enc')
          (ResultValid w Valid x Valid')
    unfolding result_to_bytes
    result-IsCodec = record {
      writes = result-Writes;
      reads = result-reads;
      max_size_bound = result-max;
      byte_len_bound = result-hint;
    }
