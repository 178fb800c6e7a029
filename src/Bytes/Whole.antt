-- ===== src/Bytes/Whole.antt =====
-- bytecast/src/traits.rs and serializer.rs: whole values to and from whole buffers, and the cursors
-- that write and read one value after the other.
use abmac_lib.Prelude.{
  ℕ, ◌+◌, ◌*◌, List, ◌++◌, Option, length, take, drop, replicate, Result, ok, err, and_then, ◌==◌,
  if◌then◌else◌,
}
use abmac_lib.Bytes.{
  BytesError, buffer_too_small, custom, invalid_data, unexpected_eof, ToBytes, FromBytes, or_option,
  unwrap_or, resize,
}

-- What is left of the buffer after `buf.truncate(n)`.
abbrev pub truncated : Result BytesError ℕ × List ℕ → Result BytesError (List ℕ)
truncated (ok n, buf) = ok (take n buf)
truncated (err e, buf) = err e

-- The second write of `serialize_to_vec`, if the first found no room.
abbrev pub retried :
    (List ℕ → Result BytesError ℕ × List ℕ)
    → Option ℕ
    → Result BytesError ℕ × List ℕ
    → Result BytesError (List ℕ)
retried write size (ok n, buf) = ok (take n buf)
retried write size (err (buffer_too_small _ _), buf) =
    truncated (write (resize buf (unwrap_or size (length buf * 2))))
retried write size (err (invalid_data e), buf) = err (invalid_data e)
retried write size (err (unexpected_eof a b), buf) = err (unexpected_eof a b)
retried write size (err (custom e), buf) = err (custom e)

module _ {ℓ} {A : Type ℓ} where
  unfoldable pub serialize_to_vec : ToBytes A → A → ℕ → Result BytesError (List ℕ)
  serialize_to_vec w v hint =
      retried (w.to_bytes v) (w.byte_len v) (w.to_bytes v (replicate hint 0))

  -- `to_vec`, and `ByteSerializer::serialize`.
  unfoldable pub to_vec : ToBytes A → A → Result BytesError (List ℕ)
  unfolding serialize_to_vec
  to_vec w v = serialize_to_vec w v (unwrap_or (or_option (w.byte_len v) w.max_size) 256)

  -- `to_array`, for arrays of `n` bytes.
  unfoldable pub to_array : ℕ → ToBytes A → A → Result BytesError (List ℕ)
  to_array n w v =
      let (r, arr) = w.to_bytes v (replicate n 0) in
      and_then r λ m. if m == n then ok arr else err (custom "size mismatch")

  -- `from_bytes_partial`, and `ByteSerializer::deserialize`.
  unfoldable pub from_bytes_partial : FromBytes A → List ℕ → Result BytesError A
  from_bytes_partial r buf = and_then (r.from_bytes buf) λ p. ok p.0

  unfoldable pub from_bytes_exact : FromBytes A → List ℕ → Result BytesError A
  from_bytes_exact r buf =
      and_then (r.from_bytes buf)
        λ (v, n). if n == length buf then ok v else err (custom "trailing bytes")

pub record ByteCursor : Type 0 where
  pub buf : List ℕ
  pub pos : ℕ

-- What `write` does with the result of `to_bytes` on the bytes from the position on. After an error
-- the position is unchanged, but bytes behind it may have been written.
abbrev pub settle : ByteCursor → Result BytesError ℕ × List ℕ → Result BytesError ℕ × ByteCursor
settle cur (ok n, rest) = (ok n, record { buf = take cur.pos cur.buf ++ rest; pos = cur.pos + n })
settle cur (err e, rest) = (err e, record { buf = take cur.pos cur.buf ++ rest; pos = cur.pos })

unfoldable pub write {ℓ} :
    {A : Type ℓ} → ToBytes A → A → ByteCursor → Result BytesError ℕ × ByteCursor
write w v cur = settle cur (w.to_bytes v (drop cur.pos cur.buf))

unfoldable pub written : ByteCursor → List ℕ
written cur = take cur.pos cur.buf

pub record ByteReader : Type 0 where
  pub buf : List ℕ
  pub pos : ℕ

abbrev pub advance {ℓ} :
    {A : Type ℓ} → ByteReader → Result BytesError (A × ℕ) → Result BytesError A × ByteReader
advance rd (ok (v, n)) = (ok v, record rd { pos = rd.pos + n })
advance rd (err e) = (err e, rd)

unfoldable pub read {ℓ} : {A : Type ℓ} → FromBytes A → ByteReader → Result BytesError A × ByteReader
read r rd = advance rd (r.from_bytes (drop rd.pos rd.buf))

unfoldable pub remaining : ByteReader → List ℕ
remaining rd = drop rd.pos rd.buf
