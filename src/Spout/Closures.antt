-- ===== src/Spout/Closures.antt =====
-- spout/src/impls/core_impls.rs: `FnSpout` and `FnFlushSpout`. A closure that is `FnMut` is a function
-- on the state that it captures.
use abmac_lib.Prelude.{◌≡◌, refl, ok, List, [], ◌∷◌}
use abmac_lib.Spout.{Spout, IsLawful, send_each, no_flush}

-- The calls of a closure for some items, in order.
abbrev pub call_each {ℓ μ} : {T : Type ℓ} {S : Type μ} → (T → S → S) → List T → S → S
call_each f [] s = s
call_each f (x ∷ xs) s = call_each f xs (f x s)

module _ {ℓ κ μ} {T : Type ℓ} {E : Type κ} {S : Type μ} (f : T → S → S) where
  unfoldable pub fn_spout : Spout T E S
  unfolding send_each no_flush
  fn_spout = record {
    send = λ item s. (ok tt, f item s);
    send_all = send_each (λ item s. (ok tt, f item s));
    flush = no_flush;
  }

  pub fn_spout-IsLawful : IsLawful fn_spout
  unfolding fn_spout
  fn_spout-IsLawful = record { send_all_lem = λ xs s. refl }

  -- The closure is called for each item, in order, and no call fails.
  pub send_each-fn_spout :
      (xs : List T) (s : S) → send_each fn_spout.send xs s ≡ (ok tt, call_each f xs s)
  unfolding fn_spout send_each
  send_each-fn_spout [] s = refl
  send_each-fn_spout (x ∷ xs) s = send_each-fn_spout xs (f x s)

-- The state is that of the closure `send`, and that of the implementor of `Flush`.
module _ {ℓ κ μ ν} {T : Type ℓ} {E : Type κ} {S : Type μ} {F : Type ν} (send : T → S → S)
    (flush : F → F) where
  unfoldable pub fn_flush_spout : Spout T E (S × F)
  unfolding send_each
  fn_flush_spout = record {
    send = λ item s. (ok tt, (send item s.0, s.1));
    send_all = send_each (λ item s. (ok tt, (send item s.0, s.1)));
    flush = λ s. (ok tt, (s.0, flush s.1));
  }

  pub fn_flush_spout-IsLawful : IsLawful fn_flush_spout
  unfolding fn_flush_spout
  fn_flush_spout-IsLawful = record { send_all_lem = λ xs s. refl }
