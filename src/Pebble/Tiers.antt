-- ===== src/Pebble/Tiers.antt =====
-- pebble/src/manager/warm/mod.rs and cold/mod.rs: the traits `WarmTier` and `ColdTier`, with what
-- the manager relies on. An implementor's state is an argument and a result. `IsWarm` and `IsCold` say
-- that a tier keeps what it is given. `IsBuffer` is more than the documentation of `WarmTier` promises:
-- `WarmCache` satisfies it and `NoWarm` does not.
pub mod Warming
pub mod Direct
use abmac_lib.Prelude.{
  ℕ, ◌≡◌, refl, ap, sym, ◌∙◌, Bool, true, false, List, [], ◌∷◌, Option, none, some, if◌then◌else◌,
  Result, ok, err,
}
use abmac_lib.Hash.{Key}
use abmac_lib.Hash.Maps.{get, IsUnique}

pub record WarmTier {ℓ} (K T W : Type ℓ) : Type ℓ where
  -- The item that overflows, if one does.
  pub insert : K → T → W → Option (K × T) × W
  pub get : K → W → Option T
  pub remove : K → W → Option T × W
  pub contains : K → W → Bool
  pub drain : W → List (K × T) × W
  pub len : W → ℕ

pub record ColdTier {ℓ} (K T C E : Type ℓ) : Type ℓ where
  pub store : K → T → List K → C → Result E (Unit {0}) × C
  pub load : K → C → Result E T
  pub contains : K → C → Bool
  pub flush : C → Result E (Unit {0}) × C
  pub remove : K → C → Result E Bool × C
  pub buffered_count : C → ℕ

-- What is found under `j` when `item` was put under `id`.
abbrev pub added {ℓ} : {K T : Type ℓ} ⦃key : Key K⦄ → K → T → K → Option T → Option T
added ⦃key⦄ id item j old = if key.same j id then some item else old

-- What is found under `j` when what was under `id` was taken away.
abbrev pub taken {ℓ} : {K T : Type ℓ} ⦃key : Key K⦄ → K → K → Option T → Option T
taken ⦃key⦄ id j old = if key.same j id then none else old

module _ {ℓ} {K T W : Type ℓ} ⦃key : Key K⦄ (warm : WarmTier K T W) where
  -- After an insertion the item is there beside the others, but for one that overflows, which may be
  -- the item itself.
  abbrev pub Inserted : K → T → W → Option (K × T) × W → Type ℓ
  Inserted id item w (none, w') = (j : K) → warm.get j w' ≡ added id item j (warm.get j w)
  Inserted id item w (some (o, y), w') =
      (added id item o (warm.get o w) ≡ some y)
      × ((j : K) → warm.get j w' ≡ taken o j (added id item j (warm.get j w)))

  -- Nothing that is put into a warm tier gets lost.
  pub record IsWarm (Valid : W → Type 0) : Type ℓ where
    pub insert_valid : (id : K) (item : T) (w : W) → Valid w → Valid (warm.insert id item w).1
    pub insert_lem :
        (id : K) (item : T) (w : W) → Valid w → Inserted id item w (warm.insert id item w)
    pub remove_valid : (id : K) (w : W) → Valid w → Valid (warm.remove id w).1
    pub remove_found : (id : K) (w : W) → Valid w → (warm.remove id w).0 ≡ warm.get id w
    pub remove_lem :
        (id j : K) (w : W) → Valid w → warm.get j (warm.remove id w).1 ≡ taken id j (warm.get j w)
    pub drain_valid : (w : W) → Valid w → Valid (warm.drain w).1
    pub drain_none : (j : K) (w : W) → Valid w → warm.get j (warm.drain w).1 ≡ none
    pub drain_found : (j : K) (w : W) → Valid w → get j (warm.drain w).0 ≡ warm.get j w
    pub drain_unique : (w : W) → Valid w → IsUnique (warm.drain w).0

  -- The tier can take an insertion back: an item that made another one overflow can be removed again,
  -- and leaves room for that one. The trait does not ask for it; undoing an eviction relies on it.
  pub record IsBuffer (Valid : W → Type 0) : Type ℓ where
    pub other :
        (id o : K) (item y : T) (w w' : W)
        → Valid w
        → warm.get id w ≡ none
        → warm.insert id item w ≡ (some (o, y), w')
        → key.same o id ≡ false
    pub restores :
        (id o : K) (item y : T) (w w' : W)
        → Valid w
        → warm.get id w ≡ none
        → warm.insert id item w ≡ (some (o, y), w')
        → (warm.insert o y (warm.remove id w').1).0 ≡ none

module _ {ℓ} {K T C E : Type ℓ} ⦃key : Key K⦄ (cold : ColdTier K T C E) where
  -- A store takes effect if and only if it succeeds.
  abbrev pub Stored : (K → C → Option T) → K → T → C → Result E (Unit {0}) × C → Type ℓ
  Stored stored id item c (ok _, c') = (j : K) → stored j c' ≡ added id item j (stored j c)
  Stored stored id item c (err _, c') = (j : K) → stored j c' ≡ stored j c

  -- `stored` is what a cold tier holds, be it in a buffer or in its storage. After a flush all of it
  -- can be loaded.
  pub record IsCold (stored : K → C → Option T) : Type ℓ where
    pub store_lem :
        (id : K) (item : T) (deps : List K) (c : C)
        → Stored stored id item c (cold.store id item deps c)
    pub flush_lem : (j : K) (c : C) → stored j (cold.flush c).1 ≡ stored j c
    pub load_lem :
        (id : K) (item : T) (c : C)
        → (cold.flush c).0 ≡ ok tt
        → stored id c ≡ some item
        → cold.load id (cold.flush c).1 ≡ ok item
