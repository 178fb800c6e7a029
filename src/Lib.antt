-- ===== src/Lib.antt =====
-- The libraries of abmac-lib: spill-ring, a ring buffer that spills what it has no room for into a
-- spout; spout, the trait of such sinks; bytecast, byte serialization; and pebble, a checkpoint
-- manager in the terms of the red-blue pebble game, whose manifest is a spill ring. The manager keeps
-- checkpoints in fast memory, evicts them to a warm tier and from there to cold storage, and writes
-- an entry of the manifest before each store.
--
-- What models what:
--   Prelude     numbers, lists, results and tests that the parts share; words of 64 bits;
--               Prelude.Sorting the stable sort and the integer square root of the standard library.
--   Hash        `HashSet` and `HashMap` of the standard library and hashbrown, as lists.
--   Spout       spout/src/traits.rs: the trait `Spout` as a record of its methods over a state, with
--               the defaults of `send_all` and `flush`. Spout.Sinks and Spout.Batch: `DropSpout`,
--               `CollectSpout` and `BatchSpout` of spout/src/impls/core_impls.rs, Spout.Closures:
--               `FnSpout` and `FnFlushSpout`.
--   Ring        spill-ring/src/ring.rs and read.rs: `SpillRing`. A state is the record `Ring`; each
--               method is the function of its name. Ring.Slots has the accesses to the buffer,
--               Ring.Slices `push_slice` and `pop_slice`, Ring.Iter the iterator of
--               spill-ring/src/iter.rs, and Ring.Queue the bounded queue that a ring stands for.
--               Ring.Holds says which ring holds which queue.
--   Bytes       bytecast/src: `ToBytes` and `FromBytes` as records. Bytes.Codec has the laws of a
--               pair of implementations, Bytes.Primitives those of integers, `()`, `bool` and
--               `char`, Bytes.Composites and Bytes.Pairs those of options, results, pairs and ranges;
--               Bytes.Whole has `to_vec`, `to_array`, `from_bytes_exact` and the two cursors.
--   Pebble      pebble/src: Pebble.Game models game.rs, Pebble.Manifest manager/manifest.rs,
--               Pebble.Warm manager/warm/cache.rs (Pebble.Warm.Ages the order of its stamps),
--               Pebble.Branch manager/branch.rs and Pebble.Dag dag/mod.rs with
--               dag/critical_paths.rs; Pebble.Strategy strategy.rs with the candidates of
--               dag/eviction.rs; Pebble.Tiers the traits of manager/warm and manager/cold with what
--               the manager relies on, Pebble.Tiers.Warming `WarmCache` and `NoWarm` as warm tiers
--               and Pebble.Tiers.Direct `DirectStorage`; Pebble.Manager
--               manager/pebble_manager.rs: Manager.Eviction eviction.rs and `persist_to_cold`,
--               Manager.Access `add`, `insert`, `load` and the changes of capacity,
--               Manager.Persistence `flush`, Manager.Removal `remove` and `compact`.
--
-- How the code is rendered:
--   An operation takes the state and returns the new one beside its result. A result of type
--   `Option` that is `none` stands for undefined behaviour or a panic: a ring reads a slot that
--   holds no item, or a loop goes on past its rounds. The theorems show that this does not happen.
--   Indices and counters of 64 bits wrap around at `2 ^ 64`. The item type and the state of the
--   spout are parameters, as are the implementations of the byte traits for element types.
--   Functions of a trait that the source leaves to its users are record fields; what is asked of
--   them is the record `Spout.IsLawful` (an overridden `send_all` does what the default does) or
--   `Bytes.Codec.IsCodec` (what is written is read). The manager is a client of the interfaces
--   `Pebble.Tiers.WarmTier` and `ColdTier`; its theorems ask for their laws: `IsWarm`, which
--   `WarmCache` and `NoWarm` satisfy, and `IsCold`, which `DirectStorage` satisfies over a storage in
--   which no send fails. Undoing an eviction relies on more than the trait asks of a warm tier:
--   `IsBuffer`, an insertion that made an item overflow can be taken back, which `WarmCache` satisfies
--   and `NoWarm` does not. A theorem that needs it says so.
--   `Access.Managed.IsManaged` is the invariant of the manager: the tiers are apart, what is not dirty
--   is stored, fast memory is within its capacity, and every checkpoint is a node of the graph. A
--   method of the manager returns its result beside the new manager also on an error. The manager is
--   that of a release build, which has no `game`.
--
-- Bounds: a ring's capacity is a power of two up to `2 ^ 20` (`Ring.Holds.IsCapacity`), as the source
-- asserts. `lineage` walks with one round more than the branch's number, which is enough since a
-- parent has a smaller number than its children. The manifest's and the tracker's counters have
-- numbers to spare. The walk of `propagate_critical_paths` gets as many rounds as there are nodes to
-- start from and dependencies in the graph, which bounds what is ever queued. `resize_hot` gets a
-- round for each checkpoint of fast memory, of which each round evicts one; `compact` one for each
-- root and each edge of the graph, since an edge puts a node on its worklist at most once.
--
-- Not modelled: the threads of spill-ring/src/mpsc; pushes and pops through shared references,
-- which take the same steps; formatted messages, which are kept as their parts; floats; bytecast's
-- collections, of which only the `var_int` of their lengths is (Bytes.VarInt), and its bridges;
-- the derive macros of abmac-macros; the repair of pebble's graph and its order of rebuilding; the
-- manager's rebuilding, recovery, branches and statistics; the buffered cold tiers; verdict.
pub mod Prelude
pub mod Spout
pub mod Ring
pub mod Bytes
pub mod Pebble
pub mod Hash
