-- ===== src/Bytes/Tests.antt =====
-- Runs of bytecast/src/impls and serializer.rs on a few values.
use abmac_lib.Prelude.{
  ap, sym, none≢some, none, replicate, length-replicate, ℕ, ◌^◌, ◌<◌, ◌≡◌, ◌≢◌, refl, List, [], ◌∷◌,
  ◌++◌, Option, some, length, arith, ok, err, and_then,
}
use abmac_lib.Bytes.{◌>>◌, require, store, return, buffer_too_small, custom, ToBytes, FromBytes}
use abmac_lib.Bytes.Codec.{IsCodec}
use abmac_lib.Bytes.Primitives.{
  store-Writes, le_bytes, uint_to_bytes, uint_from_bytes, uint-IsCodec, bool_to_bytes,
  bool_from_bytes, bool_byte, bool-IsCodec,
}
use abmac_lib.Bytes.Composites.{
  option_to_bytes, option_from_bytes, option_encoding, OptionValid, option-IsCodec,
}
use abmac_lib.Bytes.Pairs.{PairValid, pair_to_bytes, pair_from_bytes, pair-IsCodec}
use abmac_lib.Bytes.Whole.{
  to_vec, to_array, from_bytes_exact, from_bytes_partial, ByteCursor, write, written,
}
use abmac_lib.Bytes.RoundTrip.{
  to_vec_too_long, to_vec_lem, to_array_lem, from_bytes_partial_lem, from_bytes_exact_lem,
  round_trip,
}
use abmac_lib.Bytes.VarInt.{encode, decode, var_int_len}
use abmac_lib.Bytes.Canonical.{decode-encode}
use abmac_lib.Bytes.Cursors.{write_lem}

-- `Option<u16>`
abbrev w : ToBytes (Option ℕ)
w = option_to_bytes (uint_to_bytes 2)

abbrev r : FromBytes (Option ℕ)
r = option_from_bytes (uint_from_bytes 2)

abbrev encoding : Option ℕ → List ℕ
encoding = option_encoding (le_bytes 2)

abbrev Valid : Option ℕ → Type 0
Valid = OptionValid (λ v. v < 256 ^ 2)

small : 513 < 256 ^ 2
small = omega arith

option-IsCodec_example : IsCodec w r encoding Valid
option-IsCodec_example =
    option-IsCodec (uint_to_bytes 2) (uint_from_bytes 2) (le_bytes 2) (λ v. v < 256 ^ 2)
      (uint-IsCodec 2)

pair-IsCodec_example :
    IsCodec
      (pair_to_bytes (uint_to_bytes 4) bool_to_bytes)
      (pair_from_bytes (uint_from_bytes 4) bool_from_bytes)
      (λ p. le_bytes 4 p.0 ++ bool_byte p.1 ∷ [])
      (PairValid (uint_to_bytes 4) (λ v. v < 256 ^ 4) bool_to_bytes (λ b. Unit {0}))
pair-IsCodec_example =
    pair-IsCodec (uint_to_bytes 4) (uint_from_bytes 4) (le_bytes 4) (λ v. v < 256 ^ 4) bool_to_bytes
      bool_from_bytes (λ b. bool_byte b ∷ []) (λ b. Unit {0}) (uint-IsCodec 4) bool-IsCodec

to_vec_lem_example : to_vec w (some 513) ≡ ok (1 ∷ 1 ∷ 2 ∷ [])
unfolding le_bytes
to_vec_lem_example =
    to_vec_lem w r encoding Valid option-IsCodec_example (some 513) small (λ e e'. omega arith)

to_array_lem_example : to_array 3 w (some 513) ≡ ok (1 ∷ 1 ∷ 2 ∷ [])
unfolding le_bytes
to_array_lem_example = to_array_lem w r encoding Valid option-IsCodec_example (some 513) small

from_bytes_partial_lem_example : from_bytes_partial r (1 ∷ 1 ∷ 2 ∷ 9 ∷ []) ≡ ok (some 513)
unfolding le_bytes
from_bytes_partial_lem_example =
    from_bytes_partial_lem w r encoding Valid option-IsCodec_example (some 513) (9 ∷ []) small

from_bytes_exact_lem_example :
    (from_bytes_exact r (1 ∷ 1 ∷ 2 ∷ []) ≡ ok (some 513))
    × (◌≢◌ {A = List ℕ} (9 ∷ []) []
        → from_bytes_exact r (1 ∷ 1 ∷ 2 ∷ 9 ∷ []) ≡ err (custom "trailing bytes"))
unfolding le_bytes
from_bytes_exact_lem_example =
    from_bytes_exact_lem w r encoding Valid option-IsCodec_example (some 513) (9 ∷ []) small

round_trip_example : and_then (to_vec w (some 513)) (from_bytes_exact r) ≡ ok (some 513)
unfolding le_bytes
round_trip_example =
    round_trip w r encoding Valid option-IsCodec_example (some 513) small (λ e e'. omega arith)

-- Six bytes, of which two are written.
abbrev cursor : ByteCursor
cursor = record { buf = 7 ∷ 8 ∷ 0 ∷ 0 ∷ 0 ∷ 0 ∷ []; pos = 2 }

write_lem_example :
    (cur' : ByteCursor) × (write w (some 513) cursor ≡ (ok 3, cur'))
    × (written cur' ≡ 7 ∷ 8 ∷ 1 ∷ 1 ∷ 2 ∷ [])
    × (cur'.pos ≡ 5)
    × (length cur'.buf ≡ 6)
unfolding le_bytes written
write_lem_example =
    write_lem w r encoding Valid option-IsCodec_example (some 513) cursor small (omega arith)

abbrev full_cursor : ByteCursor
full_cursor = record { buf = 7 ∷ 8 ∷ 0 ∷ []; pos = 2 }

-- A type that says no size, and whose one value takes 600 bytes.
abbrev blob : List ℕ
blob = replicate 600 7

abbrev blob_to_bytes : ToBytes (Unit {0})
blob_to_bytes = record {
  max_size = none;
  to_bytes = λ v. (do require 600; store blob; return 600);
  byte_len = λ v. none;
}

abbrev blob_from_bytes : FromBytes (Unit {0})
blob_from_bytes = record { from_bytes = λ buf. ok (tt, 600) }

blob-IsCodec : IsCodec blob_to_bytes blob_from_bytes (λ v. blob) (λ v. Unit {0})
blob-IsCodec = record {
  writes = λ v h. store-Writes 600 blob (length-replicate {A = ℕ} 600 7);
  reads = λ v rest h. ap (λ n. ok (tt, n)) (sym (length-replicate {A = ℕ} 600 7));
  max_size_bound = λ v m h e. absurd (none≢some e);
  byte_len_bound = λ v m h e. absurd (none≢some e);
}

to_vec_too_long_example :
    (needed : ℕ) × (available : ℕ) × (to_vec blob_to_bytes tt
      ≡ err (buffer_too_small needed available))
to_vec_too_long_example =
    to_vec_too_long blob_to_bytes blob_from_bytes (λ v. blob) (λ v. Unit {0}) blob-IsCodec tt tt
      refl refl (rw length-replicate (omega arith))

decode-encode_example :
    ((encode 300 (replicate 3 0)).0 ≡ ok 2) × (decode (encode 300 (replicate 3 0)).1 ≡ ok (300, 2))
unfolding var_int_len
decode-encode_example = decode-encode 300 (replicate 3 0) (omega arith) (omega arith)
