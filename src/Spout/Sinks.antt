-- ===== src/Spout/Sinks.antt =====
-- spout/src/impls/core_impls.rs: `DropSpout` and `CollectSpout`, the ends of a chain of spouts.
use abmac_lib.Prelude.{List, [], ◌∷◌, ◌++◌, ◌≡◌, refl, sym, ap, ◌∙◌, ok, append_assoc, append-nil}
use abmac_lib.Spout.{Spout, IsLawful, send_each, no_flush}

-- Drops all items. The struct has no field.
unfoldable pub drop_spout {ℓ κ} : {T : Type ℓ} {E : Type κ} → Spout T E (Unit {0})
unfolding send_each no_flush
drop_spout = record {
  send = λ item s. (ok tt, s);
  send_all = send_each (λ item s. (ok tt, s));
  flush = no_flush;
}

-- Collects the items; the state is the field `items`.
unfoldable pub collect_spout {ℓ κ} : {T : Type ℓ} {E : Type κ} → Spout T E (List T)
unfolding no_flush
collect_spout = record {
  send = λ item s. (ok tt, s ++ item ∷ []);
  send_all = λ items s. (ok tt, s ++ items);
  flush = no_flush;
}

pub drop_spout-IsLawful {ℓ κ} : {T : Type ℓ} {E : Type κ} → IsLawful (drop_spout {T = T} {E = E})
unfolding drop_spout
drop_spout-IsLawful = record { send_all_lem = λ xs s. refl }

collect_each {ℓ κ} :
    {T : Type ℓ} (E : Type κ) (xs s : List T)
    → send_each {E = E} (λ item t. (ok tt, t ++ item ∷ [])) xs s ≡ (ok tt, s ++ xs)
unfolding send_each
collect_each E [] s = ap (λ t. (ok tt, t)) (sym (append-nil s))
collect_each E (x ∷ xs) s =
    collect_each E xs (s ++ x ∷ []) ∙ ap (λ t. (ok tt, t)) (append_assoc s (x ∷ []) xs)

-- `CollectSpout` overrides `send_all`, and that has the effect of the default.
pub collect_spout-IsLawful {ℓ κ} :
    {T : Type ℓ} (E : Type κ) → IsLawful (collect_spout {T = T} {E = E})
unfolding collect_spout
collect_spout-IsLawful E = record { send_all_lem = λ xs s. sym (collect_each E xs s) }

-- What `CollectSpout` holds after the items: them, behind what it held.
pub sent-collect_spout {ℓ κ} :
    {T : Type ℓ} (E : Type κ) (xs s : List T)
    → (send_each (collect_spout {T = T} {E = E}).send xs s).1 ≡ s ++ xs
unfolding collect_spout
sent-collect_spout E xs s = ap (λ t. t.1) (collect_each E xs s)
