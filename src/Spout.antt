-- ===== src/Spout.antt =====
-- spout/src/traits.rs: the trait `Spout`, whose methods return the new state beside their result.
pub mod Sinks
pub mod Batch
pub mod Closures
use abmac_lib.Prelude.{List, [], ◌∷◌, ◌≡◌, Result, ok, err}

-- The items are of type `T`, the errors of type `E`; `S` is the implementor's state.
pub record Spout {ℓ κ μ} (T : Type ℓ) (E : Type κ) (S : Type μ) : Type (ℓ ⊔ κ ⊔ μ) where
  pub send : T → S → Result E (Unit {0}) × S
  pub send_all : List T → S → Result E (Unit {0}) × S
  pub flush : S → Result E (Unit {0}) × S

-- The default `flush`.
unfoldable pub no_flush {κ μ} : {E : Type κ} {S : Type μ} → S → Result E (Unit {0}) × S
no_flush s = (ok tt, s)

module _ {ℓ κ μ} {T : Type ℓ} {E : Type κ} {S : Type μ} where
  -- The default `send_all`: `send` for each item, up to the first error.
  unfoldable pub send_each :
      (T → S → Result E (Unit {0}) × S) → List T → S → Result E (Unit {0}) × S
  send_each send [] s = (ok tt, s)
  send_each send (x ∷ xs) s =
      let rest = λ (t : S). send_each send xs t in
      let (r, s') = send x s in elim r [ ok _ ↦ rest s' | err e ↦ (err e, s') ]

  -- What `send_all` is for: an override has the effect of the default.
  pub record IsLawful (sp : Spout T E S) : Type (ℓ ⊔ κ ⊔ μ) where
    pub send_all_lem : (xs : List T) (s : S) → sp.send_all xs s ≡ send_each sp.send xs s
