-- ===== src/Pebble/Tiers/Direct.antt =====
-- pebble/src/manager/cold/direct.rs: `DirectStorage`, a cold tier without a buffer, over a storage
-- with the traits `Spout`, `CheckpointLoader` and `CheckpointRemover` of pebble/src/storage/mod.rs.
use abmac_lib.Prelude.{
  ℕ, ◌≤◌, ◌≡◌, refl, subst, Bool, List, [], Option, none, some, length, if◌then◌else◌, Result, ok,
  err, Bool-cases, append-nil, inl, inr, ◌⊎◌,
}
use abmac_lib.Hash.{Key}
use abmac_lib.Spout.{Spout}
use abmac_lib.Bytes.{ToBytes, FromBytes, BytesError}
use abmac_lib.Bytes.Codec.{IsCodec}
use abmac_lib.Bytes.Whole.{to_vec, from_bytes_partial}
use abmac_lib.Bytes.RoundTrip.{to_vec_lem}
use abmac_lib.Pebble.Tiers.{ColdTier, IsCold, Stored, added}

-- `X` is the error of the storage.
pub data DirectStorageError {ℓ} (X : Type ℓ) : Type ℓ where
  serializer : BytesError → DirectStorageError X
  storage_failed : X → DirectStorageError X

pub record Storage {ℓ} (K X S : Type ℓ) : Type ℓ where
  pub spout : Spout {ℓ, ℓ, ℓ} (K × (List ℕ × List K)) X S
  pub load : K → S → Result X (List ℕ)
  pub contains : K → S → Bool
  pub remove : K → S → Bool × S

-- What a send does to what is loaded, by how it ended: it takes effect if and only if it succeeds.
abbrev pub Sent {ℓ} :
    {K X S : Type ℓ} ⦃key : Key K⦄
    → Storage K X S
    → K
    → List ℕ
    → S
    → Result X (Unit {0}) × S
    → Type ℓ
Sent ⦃key⦄ storage id bytes s (ok _, s') =
    (j : _) → storage.load j s' ≡ (if key.same j id then ok bytes else storage.load j s)
Sent storage id bytes s (err _, s') = (j : _) → storage.load j s' ≡ storage.load j s

-- A flush takes nothing away.
pub record IsStorage {ℓ} {K X S : Type ℓ} ⦃key : Key K⦄ (storage : Storage K X S) : Type ℓ where
  pub send_lem :
      (id : K) (bytes : List ℕ) (deps : List K) (s : S)
      → Sent storage id bytes s (storage.spout.send (id, (bytes, deps)) s)
  pub flush_lem : (j : K) (s : S) → storage.load j (storage.spout.flush s).1 ≡ storage.load j s

-- No send fails, as where the spout's error is `Infallible`.
abbrev pub IsInfallible {ℓ} : {K X S : Type ℓ} → Storage K X S → Type ℓ
IsInfallible {K = K} {S = S} storage =
    (id : K) (bytes : List ℕ) (deps : List K) (s : S)
    → (storage.spout.send (id, (bytes, deps)) s).0 ≡ ok tt

module _ {ℓ} {K T X S : Type ℓ} (w : ToBytes T) (r : FromBytes T) (storage : Storage K X S) where
  -- `let _ = self.storage.send(..)`: what the storage answers is not looked at.
  abbrev pub sent_on :
      K → List K → Result BytesError (List ℕ) → S → Result (DirectStorageError X) (Unit {0}) × S
  sent_on id deps (ok bytes) s = (ok tt, (storage.spout.send (id, (bytes, deps)) s).1)
  sent_on id deps (err e) s = (err (serializer e), s)

  abbrev pub deserialized : Result BytesError T → Result (DirectStorageError X) T
  deserialized (ok item) = ok item
  deserialized (err e) = err (serializer e)

  abbrev pub loaded_bytes : Result X (List ℕ) → Result (DirectStorageError X) T
  loaded_bytes (ok bytes) = deserialized (from_bytes_partial r bytes)
  loaded_bytes (err e) = err (storage_failed e)

  unfoldable pub direct_storage : ColdTier K T S (DirectStorageError X)
  unfolding to_vec from_bytes_partial
  direct_storage = record {
    store = λ id item deps s. sent_on id deps (to_vec w item) s;
    load = λ id s. loaded_bytes (storage.load id s);
    contains = storage.contains;
    flush = λ s. (ok tt, (storage.spout.flush s).1);
    remove = λ id s. (ok (storage.remove id s).0, (storage.remove id s).1);
    buffered_count = λ s. 0;
  }

  -- What can be loaded.
  abbrev pub loadable : Result (DirectStorageError X) T → Option T
  loadable (ok item) = some item
  loadable (err _) = none

  abbrev pub in_direct : K → S → Option T
  in_direct id s = loadable (loaded_bytes (storage.load id s))

  loadable-some :
      (o : Result (DirectStorageError X) T) (item : T) → loadable o ≡ some item → o ≡ ok item
  loadable-some (ok x) item h = cc
  loadable-some (err e) item h = cc

module _ {ℓ} {K T X S : Type ℓ} ⦃key : Key K⦄ (w : ToBytes T) (r : FromBytes T)
    (storage : Storage K X S) (encoding : T → List ℕ) (Valid : T → Type 0) where
  -- An item that is encoded, with a known size or at most 512 bytes.
  abbrev pub IsSerialized : T → Type 0
  IsSerialized item =
      Valid item × (w.byte_len item ≡ none → w.max_size ≡ none → length (encoding item) ≤ 512)

  -- An item that `to_vec` refuses.
  abbrev pub IsRefused : T → Type 0
  IsRefused item = (e : BytesError) × (to_vec w item ≡ err e)

  Sent-in_direct :
      (id : K) (item : T) (s : S) (out : Result X (Unit {0}) × S)
      → Sent storage id (encoding item) s out
      → out.0 ≡ ok tt
      → r.from_bytes (encoding item) ≡ ok (item, length (encoding item))
      → (j : K) → in_direct w r storage j out.1 ≡ added id item j (in_direct w r storage j s)
  unfolding from_bytes_partial
  Sent-in_direct id item s (err e, s') sent succeeds reads j = cc succeeds
  Sent-in_direct id item s (ok _, s') sent succeeds reads j = elim (Bool-cases (key.same j id)) [
    | inl q ↦ rw (sent j, q, reads) refl
    | inr q ↦ rw (sent j, q) refl
  ]

  store_lem :
      (id : K) (item : T) (deps : List K) (s : S)
      → IsStorage storage
      → IsInfallible storage
      → IsCodec w r encoding Valid
      → IsSerialized item ⊎ IsRefused item
      → Stored
          (direct_storage w r storage)
          (in_direct w r storage)
          id
          item
          s
          ((direct_storage w r storage).store id item deps s)
  unfolding direct_storage
  store_lem id item deps s lawful infallible codec (inr (e, refused)) = rw refused (λ j. refl)
  store_lem id item deps s lawful infallible codec (inl (valid, fits)) =
      rw (to_vec_lem w r encoding Valid codec item valid fits) (
        Sent-in_direct id item s (storage.spout.send (id, (encoding item, deps)) s)
          (lawful.send_lem id (encoding item) deps s) (infallible id (encoding item) deps s) reads)
    where
      reads : r.from_bytes (encoding item) ≡ ok (item, length (encoding item))
      reads =
          subst (λ b. r.from_bytes b ≡ ok (item, length (encoding item)))
            (append-nil (encoding item)) (codec.reads item [] valid)

  -- Over a storage in which no send fails and every send takes effect, a direct cold tier does
  -- what is asked of a cold tier: a store that succeeds takes effect, one that fails leaves what
  -- can be loaded as it is, and what is stored can be loaded after a flush. Each item either is
  -- encoded by implementations of the byte traits that belong together, with a size that is known
  -- or at most 512 bytes, or is refused by `to_vec`, so that its store fails.
  pub direct_storage-IsCold :
      IsStorage storage
      → IsInfallible storage
      → IsCodec w r encoding Valid
      → ((item : T) → IsSerialized item ⊎ IsRefused item)
      → IsCold (direct_storage w r storage) (in_direct w r storage)
  unfolding direct_storage
  direct_storage-IsCold lawful infallible codec either = record {
    store_lem = λ id item deps s. store_lem id item deps s lawful infallible codec (either item);
    flush_lem = λ j s. rw (lawful.flush_lem j s) refl;
    load_lem = λ id item s _ there.
        rw (lawful.flush_lem id s)
          (loadable-some w r storage (loaded_bytes w r storage (storage.load id s)) item there);
  }
