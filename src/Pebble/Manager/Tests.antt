-- ===== src/Pebble/Manager/Tests.antt =====
-- Runs of the manager over a warm cache of one slot and a direct cold tier, whose storage is a map.
use abmac_lib.Prelude.{
  ℕ, ◌+◌, ◌≡◌, refl, inl, inr, Bool, true, false, List, [], ◌∷◌, ◌++◌, Option, none, some, arith,
  Result, ok, err, if◌then◌else◌, Bool-cases,
}
use abmac_lib.Hash.{nat_key}
use abmac_lib.Hash.Sets.{contains}
use abmac_lib.Hash.Maps.{get, contains_key, put, delete, get-put}
use abmac_lib.Spout.{no_flush, send_each}
use abmac_lib.Spout.Sinks.{collect_spout}
use abmac_lib.Ring.Holds.{IsCapacity}
use abmac_lib.Bytes.{ToBytes, FromBytes}
use abmac_lib.Bytes.Primitives.{bool_to_bytes, bool_from_bytes, bool_byte, bool-IsCodec}
use abmac_lib.Bytes.Pairs.{pair_to_bytes, pair_from_bytes, pair-IsCodec}
use abmac_lib.Pebble.Manifest.{ManifestEntry, Manifest, new_manifest}
use abmac_lib.Pebble.Manifest.Ready.{new_manifest-IsReady}
use abmac_lib.Pebble.Dag.{ComputationDag, new_dag, with_node}
use abmac_lib.Pebble.Warm.{WarmCache, get_item}
use abmac_lib.Pebble.Strategy.{Strategy, dag_strategy, hybrid}
use abmac_lib.Pebble.Tiers.{ColdTier, IsCold}
use abmac_lib.Pebble.Tiers.Warming.{warm_cache, IsRoomy, warm_cache-IsWarm, warm_cache-IsBuffer}
use abmac_lib.Pebble.Tiers.Direct.{
  DirectStorageError, Storage, IsStorage, direct_storage, in_direct, direct_storage-IsCold,
}
use abmac_lib.Pebble.Manager.{PebbleManager, PebbleManagerError, Parts, new_manager}
use abmac_lib.Pebble.Manager.Eviction.{evict_red_pebbles, ensure_room}
use abmac_lib.Pebble.Manager.Eviction.Found.{found, IsLawful}
use abmac_lib.Pebble.Manager.Eviction.Several.{Freed, Roomy, evict_red_pebbles_lem, ensure_room_lem}
use abmac_lib.Pebble.Manager.Access.{add, load, register_hot}
use abmac_lib.Pebble.Manager.Access.Managed.{IsManaged, frame, register_hot_lem}
use abmac_lib.Pebble.Manager.Access.Adding.{Added, add_lem}
use abmac_lib.Pebble.Manager.Access.Arrival.{Loaded}
use abmac_lib.Pebble.Manager.Access.Loading.{load_lem}
use abmac_lib.Pebble.Manager.Persistence.{flush_manager}
use abmac_lib.Pebble.Manager.Persistence.Flushing.{Flushed, flush_manager_lem, Ends}
use abmac_lib.Pebble.Manager.Created.{new_manager-IsManaged}
use abmac_lib.Prelude.{
  none≢some, some-inj, ap, sym, ◌∙◌, ◌≤◌, ◌<◌, length, true, inl, inr, if◌then◌else◌,
}
use abmac_lib.Hash.Sets.{same-cases, true≢false}
use abmac_lib.Pebble.Dag.{DagNode, dedup, push_dependents}
use abmac_lib.Pebble.Strategy.{select_eviction_candidates}
use abmac_lib.Pebble.Strategy.Candidates.{
  AreNodes, IsOrdered, IsIdle, select_eviction_candidates_bounds,
  select_eviction_candidates_nonempty,
}
use abmac_lib.Pebble.Manager.Eviction.{evict_single}
use abmac_lib.Pebble.Manager.Eviction.Found.{IsAbsent}
use abmac_lib.Pebble.Manager.Eviction.Lossy.{over_none, evict_single-no_warm}
use abmac_lib.Pebble.Tiers.Warming.{no_warm}
use abmac_lib.Pebble.Manager.Access.{resize_hot}
use abmac_lib.Pebble.Manager.Access.Resizing.{Resized, resize_hot_total}
use abmac_lib.Pebble.Manager.Removal
use abmac_lib.Pebble.Manager.Removal.Removing.{Removed, remove_lem}
use abmac_lib.Hash.Maps.{IsUnique}
use abmac_lib.Pebble.Manifest.Ready.{IsReady}
use abmac_lib.Pebble.Manager.Access.{auto_grow}
use abmac_lib.Pebble.Manager.Removal.{compact}
use abmac_lib.Pebble.Manager.Removal.Compacting.{compact_total}
use abmac_lib.Bytes.Codec.{IsCodec}
use abmac_lib.Bytes.RoundTrip.{to_vec_lem}
use abmac_lib.Pebble.Manager.Persistence.Succeeding.{IsReliable, IsNarrow, flush_manager_succeeds}
use abmac_lib.Bytes.{custom}
use abmac_lib.Bytes.Pairs.{PairValid}
use abmac_lib.Bytes.Whole.{to_vec, serialize_to_vec}
use abmac_lib.Pebble.Tiers.Direct.{IsInfallible, IsSerialized, IsRefused}
use abmac_lib.Prelude.{◌⊎◌}

-- A checkpoint, which is its own identifier.
abbrev Checkpoint : Type 0
Checkpoint = Bool × Bool

abbrev number : Checkpoint → ℕ
number (a, b) = (if a then 2 else 0) + (if b then 1 else 0)

abbrev w : ToBytes Checkpoint
w = pair_to_bytes bool_to_bytes bool_to_bytes

abbrev r : FromBytes Checkpoint
r = pair_from_bytes bool_from_bytes bool_from_bytes

abbrev encoding : Checkpoint → List ℕ
encoding p = (bool_byte p.0 ∷ []) ++ bool_byte p.1 ∷ []

abbrev Cells : Type 0
Cells = List (ℕ × List ℕ)

abbrev bytes_at : Option (List ℕ) → Result (Unit {0}) (List ℕ)
bytes_at none = err tt
bytes_at (some bytes) = ok bytes

abbrev send_cell : ℕ × (List ℕ × List ℕ) → Cells → Result (Unit {0}) (Unit {0}) × Cells
send_cell item s = (ok tt, put item.0 item.1.0 s)

abbrev cells : Storage ℕ (Unit {0}) Cells
cells = record {
  spout = record { send = send_cell; send_all = send_each send_cell; flush = no_flush };
  load = λ id s. bytes_at (get id s);
  contains = λ id s. contains_key id s;
  remove = λ id s. (false, s);
}

cells-IsStorage : IsStorage cells
unfolding no_flush
cells-IsStorage = record {
  send_lem = λ id bytes deps s j. elim (Bool-cases (nat_key.same j id)) [
    | inl q ↦ rw (get-put j id bytes s, q) refl
    | inr q ↦ rw (get-put j id bytes s, q) refl
  ];
  flush_lem = λ j s. refl;
}

cells-IsInfallible : IsInfallible cells
cells-IsInfallible id bytes deps s = refl

abbrev tier : ColdTier ℕ Checkpoint Cells (DirectStorageError (Unit {0}))
tier = direct_storage w r cells

abbrev held : ℕ → Cells → Option Checkpoint
held = in_direct w r cells

abbrev CheckpointValid : Checkpoint → Type 0
CheckpointValid = PairValid bool_to_bytes (λ _. Unit {0}) bool_to_bytes (λ _. Unit {0})

codec : IsCodec w r encoding CheckpointValid
codec =
    pair-IsCodec bool_to_bytes bool_from_bytes (λ b. bool_byte b ∷ []) (λ _. Unit {0}) bool_to_bytes
      bool_from_bytes (λ b. bool_byte b ∷ []) (λ _. Unit {0}) bool-IsCodec bool-IsCodec

checkpoint-Valid : (item : Checkpoint) → CheckpointValid item
unfolding bool_to_bytes
checkpoint-Valid item = (tt, tt, omega arith)

tier-IsCold : IsCold tier held
tier-IsCold =
    direct_storage-IsCold w r cells encoding CheckpointValid cells-IsStorage cells-IsInfallible
      codec (λ item. inl (checkpoint-Valid item, λ h h'. omega arith))

-- An implementation that refuses `false`.
abbrev picky_to_bytes : ToBytes Bool
picky_to_bytes = record {
  max_size = none;
  to_bytes = λ b. if b then bool_to_bytes.to_bytes b else λ buf. (err (custom "false"), buf);
  byte_len = λ b. none;
}

picky-IsCodec : IsCodec picky_to_bytes bool_from_bytes (λ b. bool_byte b ∷ []) (λ b. b ≡ true)
picky-IsCodec = record {
  writes = λ b h. rw h (bool-IsCodec.writes true tt);
  reads = λ b rest h. bool-IsCodec.reads b rest tt;
  max_size_bound = λ b m h e. absurd (none≢some e);
  byte_len_bound = λ b m h e. absurd (none≢some e);
}

abbrev Picked : Bool → Type 0
Picked b =
    IsSerialized picky_to_bytes bool_from_bytes cells (λ b. bool_byte b ∷ []) (λ b. b ≡ true) b
    ⊎ IsRefused picky_to_bytes bool_from_bytes cells (λ b. bool_byte b ∷ []) (λ b. b ≡ true) b

picked : (b : Bool) → Picked b
unfolding to_vec serialize_to_vec
picked true = inl (refl, λ h h'. omega arith)
picked false = inr (custom "false", refl)

direct_storage-IsCold_example :
    IsCold
      (direct_storage picky_to_bytes bool_from_bytes cells)
      (in_direct picky_to_bytes bool_from_bytes cells)
direct_storage-IsCold_example =
    direct_storage-IsCold picky_to_bytes bool_from_bytes cells (λ b. bool_byte b ∷ [])
      (λ b. b ≡ true) cells-IsStorage cells-IsInfallible picky-IsCodec picked

abbrev Cache : Type 0
Cache = WarmCache ℕ Checkpoint

abbrev Log : Type 0
Log = List (ManifestEntry ℕ)

abbrev Failure : Type 0
Failure = DirectStorageError (Unit {0})

abbrev parts : Parts ℕ Checkpoint Cache Cells Log Failure
parts = record {
  warm = warm_cache;
  cold = tier;
  spout = collect_spout;
  default = 0;
  max_deps = 8;
  log_capacity = 4;
  checkpoint_id = number;
}

four-IsCapacity : IsCapacity 4
four-IsCapacity = record { log = 2; power = refl; small = omega arith }

parts-IsLawful : IsLawful parts IsRoomy held
parts-IsLawful = record {
  warm_laws = warm_cache-IsWarm;
  cold_laws = tier-IsCold;
  capacity = four-IsCapacity;
}

abbrev Manager : Type 0
Manager = PebbleManager ℕ Checkpoint ℕ Cache Cells Log

abbrev cache : Cache
cache = record { entries = []; capacity = 1; counter = 0 }

abbrev strategy : Strategy
strategy = dag_strategy (record { priority_mode = hybrid })

abbrev log : Manifest ℕ Log
log = new_manifest collect_spout 0 8 4 []

abbrev empty : Manager
empty = new_manager [] cache log strategy 1 false

cache-IsRoomy : IsRoomy cache
cache-IsRoomy = (record { fits = omega arith; unique = tt }, omega arith)

new_manager-IsManaged_example :
    IsManaged parts IsRoomy held empty × ((j : ℕ) → found parts held j empty ≡ none)
unfolding warm_cache get_item get
new_manager-IsManaged_example =
    new_manager-IsManaged ℕ parts IsRoomy held [] cache log strategy 1 false
      (new_manifest-IsReady collect_spout 0 8 4 four-IsCapacity []) cache-IsRoomy (λ j. refl)

empty-IsManaged : IsManaged parts IsRoomy held empty
unfolding warm_cache get_item get
empty-IsManaged =
    (new_manager-IsManaged ℕ parts IsRoomy held [] cache log strategy 1 false
      (new_manifest-IsReady collect_spout 0 8 4 four-IsCapacity []) cache-IsRoomy (λ j. refl)).0

abbrev first : Checkpoint
first = (false, true)

abbrev second : Checkpoint
second = (true, false)

-- A graph of one node.
abbrev graph : ComputationDag ℕ
graph = with_node 1 [] new_dag

-- `first` is in fast memory, which is full.
abbrev full : Manager
full = register_hot parts 1 first (record empty { dag = graph })

full-IsManaged : IsManaged parts IsRoomy held full
unfolding new_manager with_node new_dag contains_key put nat_key get get_item warm_cache contains
full-IsManaged =
    (register_hot_lem parts IsRoomy held 1 first (record empty { dag = graph })
      (frame parts IsRoomy held empty graph empty.hot_capacity empty.checkpoints_added
        empty.io_reads empty.warm_hits empty.cold_loads empty.branches empty-IsManaged.sound)
      tt (omega arith) refl refl (λ j _. refl)).0

add_lem_example :
    (out : Result (PebbleManagerError ℕ Failure) (Unit {0}) × Manager) × (add parts second
        (1 ∷ [])
        full
      ≡ some out)
    × Added parts IsRoomy held parts-IsLawful warm_cache-IsBuffer 2 second full out
add_lem_example =
    add_lem parts IsRoomy held parts-IsLawful warm_cache-IsBuffer second (1 ∷ []) full
      full-IsManaged

load_lem_example :
    (out : Result (PebbleManagerError ℕ Failure) Checkpoint × Manager) × (load parts 1 full
      ≡ some out)
    × Loaded parts IsRoomy held parts-IsLawful warm_cache-IsBuffer 1 full out
load_lem_example =
    load_lem parts IsRoomy held parts-IsLawful warm_cache-IsBuffer 1 full full-IsManaged

evict_red_pebbles_lem_example :
    (out : Result (PebbleManagerError ℕ Failure) ℕ × Manager) × (evict_red_pebbles parts full
      ≡ some out)
    × Freed parts IsRoomy held parts-IsLawful warm_cache-IsBuffer full out
evict_red_pebbles_lem_example =
    evict_red_pebbles_lem parts IsRoomy held parts-IsLawful warm_cache-IsBuffer full
      full-IsManaged.sound full-IsManaged.unique

ensure_room_lem_example :
    (out : Result (PebbleManagerError ℕ Failure) (Unit {0}) × Manager) × (ensure_room parts full
      ≡ some out)
    × Roomy parts IsRoomy held parts-IsLawful warm_cache-IsBuffer full out
ensure_room_lem_example =
    ensure_room_lem parts IsRoomy held parts-IsLawful warm_cache-IsBuffer full full-IsManaged.sound
      full-IsManaged.unique full-IsManaged.pos full-IsManaged.fits

flush_manager_lem_example :
    Ends parts IsRoomy held parts-IsLawful
      (Flushed parts IsRoomy held parts-IsLawful full)
      (flush_manager parts full)
flush_manager_lem_example = flush_manager_lem parts IsRoomy held parts-IsLawful full full-IsManaged

abbrev active : List (ℕ × Checkpoint)
active = (1, first) ∷ []

active-AreNodes : AreNodes active graph.nodes
unfolding contains_key get put with_node new_dag nat_key
active-AreNodes k there = elim (same-cases k 1) [
  | inl (_, q) ↦ rw q (_, refl)
  | inr q ↦ absurd (true≢false (sym there ∙ rw q refl))
]

graph-IsOrdered : IsOrdered graph.nodes
unfolding contains get put delete push_dependents dedup with_node new_dag nat_key
graph-IsOrdered k d n n' there listed later = elim (same-cases k 1) [
  | inl (_, q) ↦ absurd (
      true≢false (
        sym listed
        ∙ ap (λ (x : DagNode ℕ). contains d x.dependents) (sym (some-inj (rw q at there)))))
  | inr q ↦ absurd (none≢some (rw q at there))
]

select_eviction_candidates_bounds_example :
    (length (select_eviction_candidates strategy active graph 1) ≤ 1)
    × ((k : ℕ)
        → contains k (select_eviction_candidates strategy active graph 1) ≡ true
        → IsIdle k active graph.nodes)
select_eviction_candidates_bounds_example =
    select_eviction_candidates_bounds strategy active graph 1

select_eviction_candidates_nonempty_example :
    0 < length (select_eviction_candidates strategy active graph 1)
select_eviction_candidates_nonempty_example =
    select_eviction_candidates_nonempty strategy active graph 1 active-AreNodes graph-IsOrdered
      (omega arith) (omega arith)

remove_lem_example :
    (out : Bool × Manager) × (Removal.remove parts 1 full ≡ some out)
    × Removed parts IsRoomy held parts-IsLawful 1 full full-IsManaged out
remove_lem_example = remove_lem parts IsRoomy held parts-IsLawful 1 full full-IsManaged

resize_hot_total_example :
    (out : Result (PebbleManagerError ℕ Failure) (Unit {0}) × Manager) × (resize_hot parts 0 full
      ≡ some out)
    × Resized parts IsRoomy held parts-IsLawful warm_cache-IsBuffer 0 full out
resize_hot_total_example =
    resize_hot_total parts IsRoomy held parts-IsLawful warm_cache-IsBuffer 0 full full-IsManaged

-- A cold tier that is full.
abbrev refusing : ColdTier ℕ Checkpoint (Unit {0}) (Unit {0})
refusing = record {
  store = λ id item deps c. (err tt, c);
  load = λ id c. err tt;
  contains = λ id c. false;
  flush = λ c. (ok tt, c);
  remove = λ id c. (ok false, c);
  buffered_count = λ c. 0;
}

abbrev bare_parts : Parts ℕ Checkpoint (Unit {0}) (Unit {0}) Log (Unit {0})
bare_parts = record {
  warm = no_warm;
  cold = refusing;
  spout = collect_spout;
  default = 0;
  max_deps = 8;
  log_capacity = 4;
  checkpoint_id = number;
}

abbrev bare : PebbleManager ℕ Checkpoint ℕ (Unit {0}) (Unit {0}) Log
bare = new_manager tt tt log strategy 1 false

evict_single-no_warm_example :
    (e : PebbleManagerError ℕ (Unit {0})) × (m' : PebbleManager ℕ Checkpoint ℕ
      (Unit {0})
      (Unit {0})
      Log)
    × (evict_single (over_none bare_parts) 1 first bare ≡ some (err e, m'))
    × IsAbsent (over_none bare_parts) 1 m'
unfolding new_manager no_warm get contains
evict_single-no_warm_example =
    evict_single-no_warm bare_parts four-IsCapacity 1 first bare tt tt
      (new_manifest-IsReady collect_spout 0 8 4 four-IsCapacity []) (refl, refl, refl)
      (λ deps. refl)

full-IsUnique : IsUnique full.dag.nodes
unfolding new_manager register_hot auto_grow with_node new_dag put delete contains_key
    push_dependents dedup
full-IsUnique = (refl, tt)

compact_total_example :
    (n : ℕ) × (m' : Manager) × (compact parts full ≡ some (n, m'))
    × IsReady collect_spout 0 8 4 m'.manifest
compact_total_example =
    compact_total parts four-IsCapacity full full-IsManaged.sound.ready full-IsUnique

tier-IsReliable : IsReliable tier
unfolding direct_storage
tier-IsReliable = record {
  stores = λ id item deps c.
      rw
        (to_vec_lem w r encoding CheckpointValid codec item (checkpoint-Valid item)
          (λ h h'. omega arith))
        refl;
  flushes = λ c. refl;
}

full-IsNarrow : IsNarrow parts full
unfolding register_hot auto_grow new_manager get put delete push_dependents dedup with_node new_dag
    nat_key
full-IsNarrow k = elim (same-cases k 1) [
  | inl (_, q) ↦ rw q (omega arith)
  | inr q ↦ rw q (omega arith)
]

flush_manager_succeeds_example :
    (m' : Manager) × (flush_manager parts full ≡ some (ok tt, m'))
    × Flushed parts IsRoomy held parts-IsLawful full m'
flush_manager_succeeds_example =
    flush_manager_succeeds parts IsRoomy held parts-IsLawful full full-IsManaged tier-IsReliable
      full-IsNarrow
