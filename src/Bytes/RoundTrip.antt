-- ===== src/Bytes/RoundTrip.antt =====
-- bytecast/src/traits.rs and serializer.rs: what is written is read back, for every type whose
-- implementations of the traits belong together.
use abmac_lib.Prelude.{
  take-append_self, ℕ, ◌+◌, ◌*◌, ◌≤◌, ◌<◌, ◌≡◌, ◌≢◌, refl, sym, ap, ◌∙◌, inl, inr, List, [], ◌∷◌,
  ◌++◌, Option, none, length, drop, replicate, arith, Result, ok, err, and_then, append-nil,
  length-append, length-take, length-replicate, drop_all, dec_lt, eq→==, ne→==, Option-cases,
}
use abmac_lib.Bytes.{
  BytesError, buffer_too_small, custom, ToBytes, FromBytes, or_option, unwrap_or, resize,
}
use abmac_lib.Bytes.Codec.{IsCodec, NoRoom}
use abmac_lib.Bytes.Whole.{
  serialize_to_vec, truncated, retried, to_vec, to_array, from_bytes_partial, from_bytes_exact,
}

length-resize : (buf : List ℕ) (n : ℕ) → length (resize buf n) ≡ n
length-resize buf n = rw (length-take, length-append, length-replicate) (omega arith)

retried-NoRoom :
    (again : List ℕ → Result BytesError ℕ × List ℕ) (size : Option ℕ) (buf : List ℕ)
    (out : Result BytesError ℕ × List ℕ)
    → NoRoom buf out
    → (buf' : List ℕ) × (length buf' ≡ unwrap_or size (length buf * 2))
      × (retried again size out ≡ truncated (again buf'))
retried-NoRoom again size buf out (needed, available, e, same) = (
  resize out.1 (unwrap_or size (length buf * 2)),
  length-resize out.1 (unwrap_or size (length buf * 2)),
  rw same at (ap (λ t. retried again size (t, out.1)) e),
)

module _ {ℓ} {A : Type ℓ} (w : ToBytes A) (r : FromBytes A) (enc : A → List ℕ) (Valid : A → Type 0)
    (c : IsCodec w r enc Valid) where
  -- `serialize_to_vec` succeeds if the hint is enough, or the size that the second write is given.
  serialize-hint :
      (v : A) (hint : ℕ) → Valid v → length (enc v) ≤ hint → serialize_to_vec w v hint ≡ ok (enc v)
  unfolding serialize_to_vec
  serialize-hint v hint h fits = rw (
    (c.writes v h).fits (replicate hint 0) (rw length-replicate fits),
    take-append_self (enc v) (drop (length (enc v)) (replicate hint 0)),
  )

  -- The second write has a buffer of the size that `byte_len` says, or of twice the first.
  second_write :
      (v : A) (hint : ℕ)
      → Valid v
      → hint < length (enc v)
      → (buf : List ℕ) × (length buf ≡ unwrap_or (w.byte_len v) (hint * 2))
        × (serialize_to_vec w v hint ≡ truncated (w.to_bytes v buf))
  unfolding serialize_to_vec
  second_write v hint h short = rw length-replicate at (
      retried-NoRoom (w.to_bytes v) (w.byte_len v) (replicate hint 0)
        (w.to_bytes v (replicate hint 0))
        ((c.writes v h).too_small (replicate hint 0) (rw length-replicate short)))

  serialize-retry :
      (v : A) (hint : ℕ)
      → Valid v
      → hint < length (enc v)
      → length (enc v) ≤ unwrap_or (w.byte_len v) (hint * 2)
      → serialize_to_vec w v hint ≡ ok (enc v)
  serialize-retry v hint h short fits =
      let (buf, size, runs) = second_write v hint h short in
      runs
      ∙ ap truncated ((c.writes v h).fits buf (rw size fits))
      ∙ ap ok (take-append_self (enc v) (drop (length (enc v)) buf))

  hinted :
      (v : A) (hint : ℕ) {out : Result BytesError (List ℕ)}
      → unwrap_or (or_option (w.byte_len v) w.max_size) 256 ≡ hint
      → serialize_to_vec w v hint ≡ out
      → to_vec w v ≡ out
  unfolding to_vec
  hinted v hint e runs = ap (serialize_to_vec w v) e ∙ runs

  -- `to_vec` gives the encoding of a value and nothing else, if `byte_len` or `MAX_SIZE` says a
  -- size or 512 bytes are enough.
  pub to_vec_lem :
      (v : A)
      → Valid v
      → (w.byte_len v ≡ none → w.max_size ≡ none → length (enc v) ≤ 512)
      → to_vec w v ≡ ok (enc v)
  to_vec_lem v h fits = elim (Option-cases (w.byte_len v)) [
    | inr (m, e) ↦ hinted v m (rw e refl) (serialize-hint v m h (c.byte_len_bound v m h e))
    | inl e ↦ elim (Option-cases w.max_size) [
      | inr (m, e') ↦
          hinted v m (rw (e, e') refl) (serialize-hint v m h (c.max_size_bound v m h e'))
      | inl e' ↦ hinted v 256 (rw (e, e') refl) (elim (dec_lt 256 (length (enc v))) [
        | yes long ↦ serialize-retry v 256 h long (rw e (fits e e'))
        | no short ↦ serialize-hint v 256 h (omega arith)
      ])
    ]
  ]

  -- A value for which no size is known and whose encoding is longer than 512 bytes is not
  -- serialized by `to_vec`: the second write has no room either.
  pub to_vec_too_long :
      (v : A)
      → Valid v
      → w.byte_len v ≡ none
      → w.max_size ≡ none
      → 512 < length (enc v)
      → (needed : ℕ) × (available : ℕ) × (to_vec w v ≡ err (buffer_too_small needed available))
  to_vec_too_long v h e e' long =
      let (buf, size, runs) = second_write v 256 h (omega arith) in
      let (needed, available, failed, same) = (c.writes v h).too_small buf (rw (size, e) long) in
      (
        needed,
        available,
        hinted v 256 (rw (e, e') refl)
            (runs ∙ ap (λ t. truncated (t, (w.to_bytes v buf).1)) failed),
      )

  -- An array that is as long as the encoding holds it.
  pub to_array_lem : (v : A) → Valid v → to_array (length (enc v)) w v ≡ ok (enc v)
  unfolding to_array
  to_array_lem v h = rw (
    (c.writes v h).fits (replicate (length (enc v)) 0) (rw length-replicate (omega arith)),
    eq→== (length (enc v)) (length (enc v)) refl,
    drop_all {A = ℕ} (length (enc v)) (replicate (length (enc v)) 0)
        (rw length-replicate (omega arith)),
    append-nil,
  )

  -- What is encoded is read back, whatever follows it.
  pub from_bytes_partial_lem :
      (v : A) (rest : List ℕ) → Valid v → from_bytes_partial r (enc v ++ rest) ≡ ok v
  unfolding from_bytes_partial
  from_bytes_partial_lem v rest h = rw (c.reads v rest h)

  -- `from_bytes_exact` reads back what is encoded, and refuses any byte behind it.
  pub from_bytes_exact_lem :
      (v : A) (rest : List ℕ)
      → Valid v
      → (from_bytes_exact r (enc v) ≡ ok v)
        × (rest ≢ [] → from_bytes_exact r (enc v ++ rest) ≡ err (custom "trailing bytes"))
  unfolding from_bytes_exact
  from_bytes_exact_lem v rest h = (
    ap (from_bytes_exact r) (sym (append-nil (enc v)))
        ∙ rw (c.reads v [] h, append-nil, eq→== (length (enc v)) (length (enc v)) refl),
    λ more. rw (
      c.reads v rest h,
      length-append,
      ne→== (length (enc v)) (length (enc v) + length rest) (longer rest more),
    ),
  )
    where
      longer : (xs : List ℕ) → xs ≢ [] → length (enc v) ≢ length (enc v) + length xs
      longer [] more = absurd (more refl)
      longer (x ∷ xs) more = ground arith

  -- For implementations of `ToBytes` and `FromBytes` that belong together, a value that `to_vec`
  -- serializes is the one that `from_bytes_exact` returns, if a size is known or its encoding has
  -- at most 512 bytes.
  pub round_trip :
      (v : A)
      → Valid v
      → (w.byte_len v ≡ none → w.max_size ≡ none → length (enc v) ≤ 512)
      → and_then (to_vec w v) (from_bytes_exact r) ≡ ok v
  round_trip v h fits = rw (to_vec_lem v h fits) ((from_bytes_exact_lem v [] h).0)
