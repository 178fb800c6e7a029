-- ===== src/Bytes/Codec.antt =====
-- What a pair of implementations of `ToBytes` and `FromBytes` owes its clients.
use abmac_lib.Prelude.{
  drop-append_self, take-append_self, ℕ, ◌+◌, ◌≤◌, ◌<◌, ◌≡◌, refl, sym, ap, ◌∙◌, subst, List, ◌++◌,
  some, length, take, drop, arith, Result, ok, err, append_assoc, length-append, length-take,
  length-drop, drop-add, dec_lt,
}
use abmac_lib.Bytes.{
  BytesError, buffer_too_small, Write, follow, ◌>>=◌, return, within, ToBytes, FromBytes,
}

-- The write found no room, and the buffer keeps its length.
abbrev pub NoRoom {ℓ} : {A : Type ℓ} → List ℕ → Result BytesError A × List ℕ → Type ℓ
NoRoom buf out =
    (needed : ℕ) × (available : ℕ) × (out.0 ≡ err (buffer_too_small needed available))
    × (length out.1 ≡ length buf)

-- `m` writes exactly `bytes` at the front of any buffer that has room for them, returns their
-- number and leaves the rest of the buffer alone; in a smaller one it fails with `BufferTooSmall`.
pub record Writes (m : Write ℕ) (bytes : List ℕ) : Type 0 where
  pub fits :
      (buf : List ℕ)
      → length bytes ≤ length buf
      → m buf ≡ (ok (length bytes), bytes ++ drop (length bytes) buf)
  pub too_small : (buf : List ℕ) → length buf < length bytes → NoRoom buf (m buf)

-- Two writes, the second behind the first: the shape of every composite implementation.
abbrev pub then_write : Write ℕ → Write ℕ → Write ℕ
then_write m k = do n₁ ← m; n₂ ← within n₁ k; return (n₁ + n₂)

-- How a chain goes on after a write that succeeded.
pub bind-ok {ℓ κ} :
    {A : Type ℓ} {B : Type κ} (m : Write A) (f : A → Write B) (buf : List ℕ) {a : A} {buf' : List ℕ}
    → m buf ≡ (ok a, buf')
    → (m >>= f) buf ≡ f a buf'
bind-ok m f buf e = ap (follow f) e

pub within-ok {ℓ} :
    {A : Type ℓ} (n : ℕ) (m : Write A) (buf : List ℕ) {a : A} {rest : List ℕ}
    → m (drop n buf) ≡ (ok a, rest)
    → within n m buf ≡ (ok a, take n buf ++ rest)
within-ok n m buf e = ap (λ t. (t.0, take n buf ++ t.1)) e

-- A failed write ends the chain.
pub NoRoom-bind {ℓ κ} :
    {A : Type ℓ} {B : Type κ} (m : Write A) (f : A → Write B) (buf : List ℕ)
    → NoRoom buf (m buf)
    → NoRoom buf ((m >>= f) buf)
NoRoom-bind m f buf (needed, available, e, l) =
    subst (NoRoom buf) (sym failed) (needed, available, refl, l)
  where
    failed : (m >>= f) buf ≡ (err (buffer_too_small needed available), (m buf).1)
    failed = ap (λ r. follow f (r, (m buf).1)) e

pub NoRoom-within {ℓ} :
    {A : Type ℓ} (n : ℕ) (m : Write A) (buf : List ℕ)
    → n ≤ length buf
    → NoRoom (drop n buf) (m (drop n buf))
    → NoRoom buf (within n m buf)
NoRoom-within n m buf h (needed, available, e, l) =
    (needed, available, e, rw (length-append, length-take, l, length-drop) (omega arith))

module _ (m k : Write ℕ) (a b : List ℕ) (wm : Writes m a) (wk : Writes k b) (buf : List ℕ) where
  then_write-fits :
      length a + length b ≤ length buf
      → then_write m k buf ≡ (ok (length a + length b), a ++ (b ++ drop (length a + length b) buf))
  then_write-fits h =
      bind-ok m (λ n₁. within n₁ k >>= λ n₂. return (n₁ + n₂)) buf (wm.fits buf (omega arith))
      ∙ bind-ok (within (length a) k) (λ n₂. return (length a + n₂)) written second
      ∙ ap (λ t. (ok (length a + length b), t)) whole
    where
      written : List ℕ
      written = a ++ drop (length a) buf

      rest : drop (length a) written ≡ drop (length a) buf
      rest = drop-append_self a (drop (length a) buf)

      second :
          within (length a) k written
          ≡ (ok (length b), take (length a) written ++ (b ++ drop (length b) (drop (length a) buf)))
      second =
          within-ok (length a) k written
            (rw rest (wk.fits (drop (length a) buf) (rw length-drop (omega arith))))

      whole :
          take (length a) written ++ (b ++ drop (length b) (drop (length a) buf))
          ≡ a ++ (b ++ drop (length a + length b) buf)
      whole = rw (take-append_self a (drop (length a) buf), drop-add (length a) (length b) buf)

  then_write-NoRoom : length buf < length a + length b → NoRoom buf (then_write m k buf)
  then_write-NoRoom h = elim (dec_lt (length buf) (length a)) [
    | yes short ↦
        NoRoom-bind m (λ n₁. within n₁ k >>= λ n₂. return (n₁ + n₂)) buf (wm.too_small buf short)
    | no enough ↦
        subst (NoRoom buf)
          (sym (
            bind-ok m (λ n₁. within n₁ k >>= λ n₂. return (n₁ + n₂)) buf
              (wm.fits buf (omega arith))))
          (resized _ (written_length (omega arith)) (
            NoRoom-bind (within (length a) k) (λ n₂. return (length a + n₂)) written
              (NoRoom-within (length a) k written (rw length-append (omega arith)) (
                wk.too_small (drop (length a) written)
                  (rw (drop-append_self a (drop (length a) buf), length-drop) (omega arith))))))
  ]
    where
      written : List ℕ
      written = a ++ drop (length a) buf

      written_length : length a ≤ length buf → length written ≡ length buf
      written_length le = rw (length-append, length-drop) (omega arith)

      resized :
          (out : Result BytesError ℕ × List ℕ)
          → length written ≡ length buf
          → NoRoom written out
          → NoRoom buf out
      resized out same (needed, available, e, l) = (needed, available, e, l ∙ same)

pub then_write-Writes :
    (m k : Write ℕ) (a b : List ℕ) → Writes m a → Writes k b → Writes (then_write m k) (a ++ b)
then_write-Writes m k a b wm wk = record {
  fits = λ buf h.
      rw (length-append, append_assoc) (then_write-fits m k a b wm wk buf (rw length-append at h));
  too_small = λ buf h. then_write-NoRoom m k a b wm wk buf (rw length-append at h);
}

-- `w` and `r` implement the wire format `encoding` for the values that are `Valid`.
pub record IsCodec {ℓ} {A : Type ℓ} (w : ToBytes A) (r : FromBytes A) (encoding : A → List ℕ)
    (Valid : A → Type 0) : Type ℓ where
  -- `to_bytes` writes the encoding, or fails for want of room.
  pub writes : (v : A) → Valid v → Writes (w.to_bytes v) (encoding v)
  -- `from_bytes` reads it back, and consumes nothing of what follows.
  pub reads :
      (v : A) (rest : List ℕ)
      → Valid v
      → r.from_bytes (encoding v ++ rest) ≡ ok (v, length (encoding v))
  -- `MAX_SIZE` and `byte_len`, where they say a size, say one that is enough.
  pub max_size_bound : (v : A) (m : ℕ) → Valid v → w.max_size ≡ some m → length (encoding v) ≤ m
  pub byte_len_bound : (v : A) (m : ℕ) → Valid v → w.byte_len v ≡ some m → length (encoding v) ≤ m
