-- ===== src/Bytes/VarInt.antt =====
-- bytecast/src/impls/alloc.rs: `var_int`, the length prefix of the collections, seven bits a byte and
-- the low ones first.
use Prim.Native.Nat.{bit_and, bit_or}
use abmac_lib.Prelude.{
  ℕ, ◌+◌, ◌*◌, ◌/◌, ◌%◌, ◌^◌, List, [], ◌∷◌, Result, ok, err, and_then, ltb, leb, ◌==◌, ◌&&◌,
  if◌then◌else◌,
}
use abmac_lib.Bytes.{BytesError, buffer_too_small, invalid_data, unexpected_eof, custom, Write}

abbrev pub max_var_int_len : ℕ
max_var_int_len = 5

-- The loop at index `i`, over `buf[i..]`; `i` bytes of the buffer are behind it, so that at its end
-- `buf.len()` is `i`.
unfoldable pub encode_at : ℕ → ℕ → Write ℕ
encode_at i value [] = (err (buffer_too_small (i + 1) i), [])
encode_at i value (b ∷ bs) =
    let rest = encode_at (i + 1) (value / 2 ^ 7) bs in
    if ltb value 128
    then (ok (i + 1), value ∷ bs)
    else (rest.0, bit_or (bit_and (value % 256) 127) 128 ∷ rest.1)

unfoldable pub encode : ℕ → Write ℕ
unfolding encode_at
encode value = encode_at 0 value

-- The loop at index `i`, with what it has of the result and its shift. A `u32` is shifted to the
-- left modulo `2 ^ 32`.
unfoldable pub decode_at : ℕ → ℕ → ℕ → List ℕ → Result BytesError (ℕ × ℕ)
decode_at i result shift [] = err (unexpected_eof 1 0)
decode_at i result shift (byte ∷ bytes) =
    let result' = bit_or result (bit_and byte 127 * 2 ^ shift % 2 ^ 32) in
    let rest = decode_at (i + 1) result' (shift + 7) bytes in
    if leb max_var_int_len i
    then err (invalid_data "var_int too long")
    else if shift == 28 && ltb 15 byte
    then err (invalid_data "var_int overflows u32")
    else if ltb byte 128
    then ok (result', i + 1)
    else rest

unfoldable pub decode_raw : List ℕ → Result BytesError (ℕ × ℕ)
unfolding decode_at
decode_raw buf = decode_at 0 0 0 buf

unfoldable pub var_int_len : ℕ → ℕ
var_int_len value =
    if ltb value (2 ^ 7)
    then 1
    else if ltb value (2 ^ 14)
    then 2
    else if ltb value (2 ^ 21)
    then 3
    else if ltb value (2 ^ 28)
    then 4
    else 5

unfoldable pub decode : List ℕ → Result BytesError (ℕ × ℕ)
unfolding decode_raw var_int_len
decode buf = and_then (decode_raw buf) (λ (result, consumed).
    if consumed == var_int_len result
    then ok (result, consumed)
    else err (invalid_data "non-canonical var_int encoding"))

-- `u32::try_from(len)`
unfoldable pub checked_len : ℕ → Result BytesError ℕ
checked_len len =
    if ltb len (2 ^ 32) then ok len else err (custom "collection exceeds u32::MAX length")
