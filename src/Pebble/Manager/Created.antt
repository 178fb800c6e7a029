-- ===== src/Pebble/Manager/Created.antt =====
-- pebble/src/manager/pebble_manager.rs: a new manager.
use abmac_lib.Prelude.{ℕ, ◌≡◌, refl, sym, ◌∙◌, Bool, Option, none, arith, none≢some}
use abmac_lib.Hash.{Key}
use abmac_lib.Hash.Sets.{contains, true≢false}
use abmac_lib.Hash.Maps.{get}
use abmac_lib.Pebble.Manifest.{Manifest}
use abmac_lib.Pebble.Manifest.Ready.{IsReady}
use abmac_lib.Pebble.Strategy.{Strategy}
use abmac_lib.Pebble.Manager.{Parts, new_manager}
use abmac_lib.Pebble.Manager.Eviction.Found.{found}
use abmac_lib.Pebble.Manager.Access.Managed.{IsManaged}

module _ {ℓ} {K T W C S E : Type ℓ} (N : Type ℓ) ⦃key : Key K⦄ (parts : Parts K T W C S E)
    (Valid : W → Type 0) (stored : K → C → Option T) where
  -- A new manager over an empty warm tier and a manifest that can be written satisfies the
  -- invariant, and no checkpoint is found in it.
  pub new_manager-IsManaged :
      (cold : C) (warm : W) (manifest : Manifest K S) (s : Strategy) (hot_capacity : ℕ)
      (auto_resize : Bool)
      → IsReady parts.spout parts.default parts.max_deps parts.log_capacity manifest
      → Valid warm
      → ((j : K) → parts.warm.get j warm ≡ none)
      → IsManaged {N = N} parts Valid stored
          (new_manager cold warm manifest s hot_capacity auto_resize)
        × ((j : K)
            → found {N = N} parts stored j
                (new_manager cold warm manifest s hot_capacity auto_resize)
              ≡ none)
  unfolding new_manager contains get
  new_manager-IsManaged cold warm manifest s hot_capacity auto_resize ready valid empty = (
    record {
      sound = record {
        ready = ready;
        valid = valid;
        backed = λ j h. absurd (true≢false (sym h));
        hot_apart = λ j x h. absurd (none≢some h);
        warm_apart = λ j x h. absurd (none≢some (sym (empty j) ∙ h));
        clean = λ j x h _. absurd (none≢some (sym (empty j) ∙ h));
      };
      unique = tt;
      pos = omega arith;
      fits = omega arith;
      known = λ j _. rw (empty j) refl;
    },
    λ j. rw (empty j) refl,
  )
