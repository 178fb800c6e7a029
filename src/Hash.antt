-- ===== src/Hash.antt =====
-- `HashSet` and `HashMap` of the standard library and hashbrown, over keys that can be compared. A
-- set is the list of its elements and a map that of its entries, in an order on which nothing that
-- follows depends.
pub mod Sets
pub mod Maps
pub mod Keys
use abmac_lib.Prelude.{ℕ, ◌≡◌, ◌↔◌, Bool, true, ◌==◌, ==_iff}

-- `K: Eq + Hash`
pub record Key {ℓ} (K : Type ℓ) : Type ℓ where
  pub same : K → K → Bool
  pub same_iff : (a b : K) → (same a b ≡ true) ↔ (a ≡ b)

instance unfoldable pub nat_key : Key ℕ
nat_key = record { same = ◌==◌; same_iff = ==_iff }
