-- ===== src/Ring/Window.antt =====
-- The slots as a window: which items they hold from an index on, going round at the capacity.
use Prim.Native.Nat.{◌∣◌}
use native.Mathlib.Nat.{add-mod, mod-lt, add-zero, add-mod_right}
use native.Mathlib.Decide.{ℕ_discrete, dec_lt}
use abmac_lib.Prelude.{
  ℕ, suc, ◌+◌, ◌%◌, ◌≤◌, ◌<◌, ◌≡◌, sym, ap, ◌∙◌, List, [], ◌∷◌, ◌++◌, Option, none, some, length,
  get_elem?, get_or, set, arith, word, wrapping-mod, add-mod-inj, get_or-set_self, get_or-set_ne,
  get_elem?-eq-none, get_elem?-eq-get_or, get_elem?-snoc_self, get_elem?-snoc_ne, replicate,
  get_or-replicate, lt→ltb,
}
use abmac_lib.Ring.Slots.{peek_slot, read_slot, write_slot}

module _ {ℓ} {T : Type ℓ} where
  -- Slot `h + i` holds item `i` of `q`, and is free where `q` has none.
  abbrev pub Window : ℕ → List (Option T) → ℕ → List T → Type ℓ
  Window n buffer h q = (i : ℕ) → i < n → get_or buffer ((h + i) % n) none ≡ get_elem? q i

  pub Window-free : (n m h : ℕ) → Window n (replicate m none) h []
  Window-free n m h i hi = get_or-replicate m none ((h + i) % n)

  -- The index may go round at `2 ^ 64`.
  pub Window-wrap :
      (n : ℕ) (buffer : List (Option T)) (h : ℕ) (q : List T)
      → n ∣ word
      → Window n buffer h q
      → Window n buffer (h % word) q
  Window-wrap n buffer h q d w i hi = rw same (w i hi)
    where
      same : (h % word + i) % n ≡ (h + i) % n
      same = add-mod (h % word) i n ∙ rw (wrapping-mod h n d) (sym (add-mod h i n))

  pub Window-push :
      (n : ℕ) (buffer : List (Option T)) (h : ℕ) (q : List T) (x : T)
      → length buffer ≡ n
      → length q < n
      → Window n buffer h q
      → Window n (set buffer ((h + length q) % n) (some x)) h (q ++ x ∷ [])
  Window-push n buffer h q x size room w i hi = elim (ℕ_discrete i (length q)) [
    | yes e ↦
        rw (e, get_elem?-snoc_self q x)
          (get_or-set_self buffer _ (some x) none
            (omega (arith, mod-lt (h + length q) {m = n} (omega arith))))
    | no ne ↦ rw (get_elem?-snoc_ne q x i ne) (
        get_or-set_ne buffer _ _ (some x) none
          (λ e. ne (sym (add-mod-inj n h (length q) i room hi e)))
        ∙ w i hi)
  ]

  pub Window-pop :
      (n : ℕ) (buffer : List (Option T)) (h : ℕ) (x : T) (q : List T)
      → length buffer ≡ n
      → length (x ∷ q) ≤ n
      → Window n buffer h (x ∷ q)
      → Window n (set buffer (h % n) none) (h + 1) q
  Window-pop n buffer h x q size fits w i hi = elim (dec_lt (suc i) n) [
    | yes more ↦ rw shift (
        get_or-set_ne buffer _ _ none none
          (λ e. absurd (omega (arith, add-mod-inj n h 0 (suc i) (omega arith) more (head e))))
        ∙ w (suc i) more)
    | no last ↦
        rw (get_elem?-eq-none q i (omega arith), round (omega arith))
          (get_or-set_self buffer (h % n) none none (omega (arith, mod-lt h {m = n} (omega arith))))
  ]
    where
      shift : h + 1 + i ≡ h + suc i
      shift = omega arith

      head : h % n ≡ (h + suc i) % n → (h + 0) % n ≡ (h + suc i) % n
      head e = rw add-zero e

      round : suc i ≡ n → (h + 1 + i) % n ≡ h % n
      round e = ap (λ k. k % n) (omega arith) ∙ add-mod_right h n

  -- What the slot of item `i` gives.
  pub peek_slot-Window :
      (n : ℕ) (buffer : List (Option T)) (h : ℕ) (q : List T) (i : ℕ)
      → length buffer ≡ n
      → i < n
      → Window n buffer h q
      → peek_slot buffer ((h + i) % n) ≡ get_elem? q i
  unfolding peek_slot
  peek_slot-Window n buffer h q i size hi w =
      rw
        (get_elem?-eq-get_or buffer ((h + i) % n) none
          (omega (arith, mod-lt (h + i) {m = n} (omega arith))))
        (w i hi)

  pub read_slot-Window :
      (n : ℕ) (buffer : List (Option T)) (h : ℕ) (x : T) (q : List T)
      → length buffer ≡ n
      → length (x ∷ q) ≤ n
      → Window n buffer h (x ∷ q)
      → read_slot buffer (h % n) ≡ some (x, set buffer (h % n) none)
  unfolding read_slot
  read_slot-Window n buffer h x q size fits w = rw first
    where
      first : peek_slot buffer (h % n) ≡ some x
      first = rw add-zero at (peek_slot-Window n buffer h (x ∷ q) 0 size (omega arith) w)

  pub write_slot-some :
      (buffer : List (Option T)) (i : ℕ) (x : T)
      → i < length buffer
      → write_slot buffer i x ≡ some (set buffer i (some x))
  unfolding write_slot
  write_slot-some buffer i x h = rw (lt→ltb i (length buffer) h)
