-- ===== src/Pebble/Manager/Access/Adding.antt =====
-- pebble/src/manager/pebble_manager.rs: `add` puts a new checkpoint into fast memory and keeps the
-- others, over a warm tier that can take an insertion back.
use abmac_lib.Prelude.{
  ◌≡◌, refl, sym, ap, ◌∙◌, subst, inl, inr, true, false, List, Option, none, some, Result, ok, err,
  arith, Bool-cases,
}
use abmac_lib.Hash.{Key}
use abmac_lib.Hash.Sets.{true≢false}
use abmac_lib.Hash.Maps.{contains_key}
use abmac_lib.Pebble.Dag.{ComputationDag, with_node}
use abmac_lib.Pebble.Dag.Paths.{add_node_impl_lem}
use abmac_lib.Pebble.Dag.Members.{with_node-old, with_node-new}
use abmac_lib.Pebble.Tiers.{IsBuffer, added}
use abmac_lib.Pebble.Manager.{
  PebbleManager, PebbleManagerError, dag_error, Parts, go_on, ◌>>◌, modify,
}
use abmac_lib.Pebble.Manager.Eviction.{ensure_room}
use abmac_lib.Pebble.Manager.Eviction.Found.{found, IsLawful}
use abmac_lib.Pebble.Manager.Eviction.Several.{Roomy, ensure_room_lem}
use abmac_lib.Pebble.Manager.Access.{register_hot, add_to_dag, add}
use abmac_lib.Pebble.Manager.Access.Managed.{IsManaged, frame, register_hot_lem}

module _ {ℓ} {K T N W C S E : Type ℓ} ⦃key : Key K⦄ (parts : Parts K T W C S E) (Valid : W → Type 0)
    (stored : K → C → Option T) where
  module _ (lawful : IsLawful parts Valid stored) (buffer : IsBuffer parts.warm Valid) where
    -- The checkpoint is added, and was not there; or the call failed, and all are there as before.
    abbrev pub Added :
        K
        → T
        → PebbleManager K T N W C S
        → Result (PebbleManagerError K E) (Unit {0}) × PebbleManager K T N W C S
        → Type ℓ
    Added id item m (ok _, m') =
        IsManaged parts Valid stored m'
        × (found parts stored id m ≡ none)
        × ((j : K) → found parts stored j m' ≡ added id item j (found parts stored j m))
    Added id item m (err _, m') =
        IsManaged parts Valid stored m'
        × ((j : K) → found parts stored j m' ≡ found parts stored j m)

    -- After a call that kept the graph, and from a manager with a new node in its graph.
    module _ (id : K) (item : T) (m : PebbleManager K T N W C S)
        (h : IsManaged parts Valid stored m) (dag' : ComputationDag K)
        (new : contains_key id m.dag.nodes ≡ false) (node : contains_key id dag'.nodes ≡ true)
        (older : (j : K)
          → contains_key j m.dag.nodes ≡ true
          → contains_key j dag'.nodes ≡ true) where
      wider : (j : K) → contains_key j dag'.nodes ≡ false → found parts stored j m ≡ none
      wider j unknown = elim (Bool-cases (contains_key j m.dag.nodes)) [
        | inl there ↦ absurd (true≢false (sym (older j there) ∙ unknown))
        | inr unknown' ↦ h.known j unknown'
      ]

      with_room :
          (r : Result (PebbleManagerError K E) (Unit {0}) × PebbleManager K T N W C S)
          → Roomy parts Valid stored lawful buffer (record m { dag = dag' }) r
          → (out : Result (PebbleManagerError K E) (Unit {0}) × PebbleManager K T N W C S) × (go_on
                (λ _. modify (register_hot parts id item))
                (some r)
              ≡ some out)
            × Added id item m out
      with_room (err e, m') s = (
        (err e, m'),
        refl,
        (
          record {
            sound = s.sound;
            unique = s.unique;
            pos = rw s.capacity h.pos;
            fits = omega (arith, s.fewer, s.capacity, h.fits);
            known = λ j unknown.
                s.all j ∙ wider j (subst (λ d. contains_key j d.nodes ≡ false) s.graph unknown);
          },
          s.all,
        ),
      )
      with_room (ok _, m') (s, room) =
          let (managed, all) =
            register_hot_lem parts Valid stored id item m' s.sound s.unique room
              (s.all id ∙ h.known id new)
              (subst (λ d. contains_key id d.nodes ≡ true) (sym s.graph) node)
              (λ j unknown.
                s.all j ∙ wider j (subst (λ d. contains_key j d.nodes ≡ false) s.graph unknown)) in
          (
            (ok tt, register_hot parts id item m'),
            refl,
            (managed, h.known id new, λ j. all j ∙ ap (added id item j) (s.all j)),
          )

      room_made :
          (out : Result (PebbleManagerError K E) (Unit {0}) × PebbleManager K T N W C S)
          × ((ensure_room parts >> modify (register_hot parts id item)) (record m { dag = dag' })
              ≡ some out)
          × Added id item m out
      room_made =
          let (r, runs, roomy) =
            ensure_room_lem parts Valid stored lawful buffer (record m { dag = dag' })
              (frame parts Valid stored m dag' m.hot_capacity m.checkpoints_added m.io_reads
                m.warm_hits m.cold_loads m.branches h.sound)
              h.unique h.pos h.fits in
          rw runs (with_room r roomy)

    -- Over tiers that keep what they are given, of which the warm one can take an insertion back
    -- (`IsBuffer`, as `WarmCache` can and `NoWarm` cannot), `add` to a manager that satisfies the
    -- invariant ends and keeps the invariant. If it succeeds, the checkpoint is there, and was not
    -- before, and every other one is there as before; if it fails, every checkpoint is there as
    -- before.
    pub add_lem :
        (item : T) (dependencies : List K) (m : PebbleManager K T N W C S)
        → IsManaged parts Valid stored m
        → (out : Result (PebbleManagerError K E) (Unit {0}) × PebbleManager K T N W C S) × (add
              parts item dependencies m
            ≡ some out)
          × Added (parts.checkpoint_id item) item m out
    unfolding add add_to_dag
    add_lem item dependencies m h =
        let id = parts.checkpoint_id item in
        elim (add_node_impl_lem id dependencies true m.dag) [
          | inr (e, refused) ↦ ((err (dag_error e), m), rw refused refl, (h, λ j. refl))
          | inl (_, new, _, paths, accepted) ↦ rw accepted (
              room_made id item m h
                (record (with_node id dependencies m.dag) { critical_paths = paths }) new
                (with_node-new id dependencies m.dag)
                (λ j there. with_node-old j id dependencies m.dag there))
        ]
