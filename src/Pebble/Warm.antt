-- ===== src/Pebble/Warm.antt =====
-- pebble/src/manager/warm/cache.rs: `WarmCache`, the items evicted from hot memory, each with the
-- time of its insertion.
pub mod Overflow
pub mod Ages
use abmac_lib.Prelude.{
  ℕ, ◌+◌, ◌≤◌, ◌≡◌, Bool, true, false, List, [], ◌∷◌, Option, none, some, length, leb,
  if◌then◌else◌, wrapping_add, map,
}
use abmac_lib.Prelude.Results.{◌>>=◌}
use abmac_lib.Hash.{Key}
use abmac_lib.Hash.Maps.{get, contains_key, delete, put, map_some}

pub record WarmCache {ℓ κ} (K : Type ℓ) (T : Type κ) : Type (ℓ ⊔ κ) where
  pub entries : List (K × (T × ℕ))
  pub capacity : ℕ
  pub counter : ℕ

module _ {ℓ κ} {K : Type ℓ} {T : Type κ} where
  unfoldable pub with_capacity : ℕ → WarmCache K T
  with_capacity capacity = record { entries = []; capacity = capacity; counter = 0 }

  unfoldable pub is_full : WarmCache K T → Bool
  is_full w = leb w.capacity (length w.entries)

  -- `min_by_key`: of several smallest the first.
  abbrev pub older : K × (T × ℕ) → Option (K × (T × ℕ)) → K × (T × ℕ)
  older e none = e
  older e (some f) = if leb e.1.1 f.1.1 then e else f

  unfoldable pub oldest : List (K × (T × ℕ)) → Option (K × (T × ℕ))
  oldest [] = none
  oldest (e ∷ es) = some (older e (oldest es))

  unfoldable pub drain : WarmCache K T → List (K × T) × WarmCache K T
  drain w = (map (λ e. (e.0, e.1.0)) w.entries, record w { entries = [] })

module _ {ℓ κ} {K : Type ℓ} {T : Type κ} ⦃key : Key K⦄ where
  -- `entries.remove(&id)`
  unfoldable pub remove_entry : K → WarmCache K T → Option T × WarmCache K T
  remove_entry id w =
      (map_some (λ v. v.0) (get id w.entries), record w { entries = delete id w.entries })

  -- The removal of the entry that was found to be the oldest.
  abbrev pub evict_found : WarmCache K T → Option (K × (T × ℕ)) → Option (K × T) × WarmCache K T
  evict_found w none = (none, w)
  evict_found w (some e) = (
    map_some (λ x. (e.0, x)) (map_some (λ v. v.0) (get e.0 w.entries)),
    record w { entries = delete e.0 w.entries },
  )

  unfoldable pub evict_oldest : WarmCache K T → Option (K × T) × WarmCache K T
  evict_oldest w = evict_found w (oldest w.entries)

  -- `self.counter = self.counter.wrapping_add(1); self.entries.insert(id, (item, self.counter));`
  abbrev pub stamp : K → T → WarmCache K T → WarmCache K T
  stamp id item w =
      let counter' = wrapping_add w.counter 1 in
      record w { entries = put id (item, counter') w.entries; counter = counter' }

  -- The overflow, and the cache.
  unfoldable pub insert : K → T → WarmCache K T → Option (K × T) × WarmCache K T
  unfolding evict_oldest
  insert id item w =
      if contains_key id w.entries
      then (none, stamp id item w)
      else let (overflow, w') =
          (if leb w.capacity (length w.entries) then evict_oldest w else (none, w)) in
        (overflow, stamp id item w')

  unfoldable pub get_item : K → WarmCache K T → Option T
  get_item id w = map_some (λ v. v.0) (get id w.entries)

  unfoldable pub contains : K → WarmCache K T → Bool
  contains id w = contains_key id w.entries
