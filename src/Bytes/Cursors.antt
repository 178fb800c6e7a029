-- ===== src/Bytes/Cursors.antt =====
-- bytecast/src/serializer.rs: values written one after the other are read back in their order.
use abmac_lib.Prelude.{
  drop-append_self, take-append_self, ℕ, ◌+◌, ◌≤◌, ◌<◌, ◌≡◌, refl, ap, ◌∙◌, List, ◌++◌, length,
  take, drop, arith, ok, err, length-append, length-take, length-drop, take-append, drop-add,
}
use abmac_lib.Bytes.{buffer_too_small, ToBytes, FromBytes}
use abmac_lib.Bytes.Codec.{IsCodec}
use abmac_lib.Bytes.Whole.{ByteCursor, settle, write, written, ByteReader, advance, read, remaining}

taken :
    (n : ℕ) (front xs ys : List ℕ)
    → length front ≡ n
    → take (n + length xs) (front ++ (xs ++ ys)) ≡ front ++ xs
taken n front xs ys e =
    rw (← e, take-append front (xs ++ ys) (length xs), take-append_self xs ys) refl

taken_front : (n : ℕ) (front ys : List ℕ) → length front ≡ n → take n (front ++ ys) ≡ front
taken_front n front ys e = rw (← e) (take-append_self front ys)

module _ {ℓ} {A : Type ℓ} (w : ToBytes A) (r : FromBytes A) (enc : A → List ℕ) (Valid : A → Type 0)
    (c : IsCodec w r enc Valid) where
  -- A cursor with room for the encoding of a value appends it to what is written and returns its
  -- length, and the buffer keeps its length.
  pub write_lem :
      (v : A) (cur : ByteCursor)
      → Valid v
      → cur.pos + length (enc v) ≤ length cur.buf
      → (cur' : ByteCursor) × (write w v cur ≡ (ok (length (enc v)), cur'))
        × (written cur' ≡ written cur ++ enc v)
        × (cur'.pos ≡ cur.pos + length (enc v))
        × (length cur'.buf ≡ length cur.buf)
  unfolding write written
  write_lem v cur h room = (
    record { buf = take cur.pos cur.buf ++ rest; pos = cur.pos + length (enc v) },
    ap (settle cur) ((c.writes v h).fits (drop cur.pos cur.buf) (rw length-drop (omega arith))),
    taken cur.pos (take cur.pos cur.buf) (enc v) _ (rw length-take (omega arith)),
    refl,
    rw (length-append, length-take, length-append, length-drop, length-drop) (omega arith),
  )
    where
      rest : List ℕ
      rest = enc v ++ drop (length (enc v)) (drop cur.pos cur.buf)

  -- A cursor without room for the encoding of a value fails to write it, and neither moves nor
  -- changes what is written.
  pub write-too_small :
      (v : A) (cur : ByteCursor)
      → Valid v
      → cur.pos ≤ length cur.buf
      → length cur.buf < cur.pos + length (enc v)
      → (needed : ℕ) × (available : ℕ) × (cur' : ByteCursor) × (write w v cur
          ≡ (err (buffer_too_small needed available), cur'))
        × (written cur' ≡ written cur)
        × (cur'.pos ≡ cur.pos)
  unfolding write written
  write-too_small v cur h le short =
      let (needed, available, failed, same) =
        (c.writes v h).too_small (drop cur.pos cur.buf) (rw length-drop (omega arith)) in
      (
        needed,
        available,
        record {
          buf = take cur.pos cur.buf ++ (w.to_bytes v (drop cur.pos cur.buf)).1;
          pos = cur.pos;
        },
        ap (λ t. settle cur (t, (w.to_bytes v (drop cur.pos cur.buf)).1)) failed,
        taken_front cur.pos (take cur.pos cur.buf) _ (rw length-take (omega arith)),
        refl,
      )

  -- A reader in front of an encoded value returns it and moves on to what follows.
  pub read_lem :
      (v : A) (rest : List ℕ) (rd : ByteReader)
      → Valid v
      → remaining rd ≡ enc v ++ rest
      → (rd' : ByteReader) × (read r rd ≡ (ok v, rd')) × (remaining rd' ≡ rest)
  unfolding read remaining
  read_lem v rest rd h ahead = (
    record { buf = rd.buf; pos = rd.pos + length (enc v) },
    ap (λ b. advance rd (r.from_bytes b)) ahead ∙ ap (advance rd) (c.reads v rest h),
    rw (drop-add rd.pos (length (enc v)) rd.buf, ahead) (drop-append_self (enc v) rest),
  )
