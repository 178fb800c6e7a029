-- ===== src/Pebble/Manifest/Log.antt =====
-- pebble/src/manager/manifest.rs: the log is complete. What was recorded is in the ring or was sent
-- to the spout, in order and numbered without a gap.
use abmac_lib.Prelude.{
  some-inj, none≢some, ℕ, suc, ◌≤◌, ◌<◌, ◌≡◌, refl, sym, ap, ◌∙◌, subst, ◌⊎◌, inl, inr, List, [],
  ◌∷◌, ◌++◌, some, length, take, get_elem?, wrapping_add, word, ok, err, arith, append-nil,
  take-append_self, length-append, length-replicate, lt→ltb, le→ltb, dec_lt, get_elem?-snoc_self,
  get_elem?-snoc_ne, ℕ_discrete,
}
use native.Mathlib.Nat.{mod-eq_of_lt}
use abmac_lib.Spout.{Spout}
use abmac_lib.Ring.{with_spout_cold}
use abmac_lib.Ring.Queue.Overflow.{sent, push_split, sent-append, sent-nil}
use abmac_lib.Ring.Holds.{IsCapacity, IsCapacity-pos, Holds, with_spout_cold-Holds}
use abmac_lib.Ring.Refine.{push_mut_refines}
use abmac_lib.Ring.Flush.{flush_refines}
use abmac_lib.Pebble.Manifest.{
  too_many_dependencies, ManifestEntry, Manifest, eviction, removal, new_manifest, append_entry,
  record_eviction, record_tombstone, flush_manifest,
}

-- An entry of the manifest holds the dependencies that it was given, padded to the array, if the
-- array has room and its length fits into a byte.
pub eviction-dependencies {ℓ} :
    {K : Type ℓ} (default : K) (max_deps : ℕ) (id : K) (deps : List K) (seq : ℕ)
    → length deps ≤ max_deps
    → max_deps < 256
    → (take
          (eviction default max_deps id deps seq).dep_count
          (eviction default max_deps id deps seq).dependencies
        ≡ deps)
      × (length (eviction default max_deps id deps seq).dependencies ≡ max_deps)
eviction-dependencies default max_deps id deps seq fits small = (
  rw (mod-eq_of_lt {n = length deps} {m = 256} (omega arith)) (take-append_self deps _),
  rw (length-append, length-replicate) (omega arith),
)

module _ {ℓ κ} {K : Type ℓ} {S : Type κ} (sp : Spout {ℓ, 0, κ} (ManifestEntry K) ⊥ S) (default : K)
    (max_deps n : ℕ) (c : IsCapacity n) (s : S) where
  -- The manifest has recorded exactly `entries`: the older ones went to the spout, which was in the
  -- state `s` before them, and the ring holds the others.
  pub record IsLog (m : Manifest K S) (entries : List (ManifestEntry K)) : Type (ℓ ⊔ κ) where
    pub old : List (ManifestEntry K)
    pub recent : List (ManifestEntry K)
    pub split : entries ≡ old ++ recent
    pub holds : Holds n m.ring (recent, sent sp old s)
    pub counted : m.seq ≡ length entries
    pub numbered : (i : ℕ) (e : ManifestEntry K) → get_elem? entries i ≡ some e → e.seq ≡ i

  append_entry_lem :
      (m : Manifest K S) (entries : List (ManifestEntry K)) (entry : ManifestEntry K)
      → IsLog m entries
      → suc (length entries) < word
      → entry.seq ≡ m.seq
      → (m' : Manifest K S) × (append_entry sp default max_deps n entry m ≡ some m')
        × IsLog m' (entries ++ entry ∷ [])
  unfolding append_entry
  append_entry_lem m entries entry h room e =
      let (old', recent', parts, pushed) =
        push_split sp n entry h.old h.recent s (IsCapacity-pos c) in
      let (ring', runs, holds) =
        push_mut_refines sp c m.ring (h.recent, sent sp h.old s) entry h.holds in
      (
        record { ring = ring'; seq = wrapping_add m.seq 1 },
        rw runs refl,
        record {
          old = old';
          recent = recent';
          split = ap (λ t. t ++ entry ∷ []) h.split ∙ parts;
          holds = subst (Holds n ring') pushed holds;
          counted = rw (h.counted, length-append) (mod-eq_of_lt (omega arith));
          numbered = number;
        },
      )
    where
      number :
          (i : ℕ) (e' : ManifestEntry K)
          → get_elem? (entries ++ entry ∷ []) i ≡ some e'
          → e'.seq ≡ i
      number i e' found = elim (ℕ_discrete i (length entries)) [
        | yes last ↦
            let found_last =
              sym (get_elem?-snoc_self entries entry)
              ∙ ap (get_elem? (entries ++ entry ∷ [])) (sym last)
              ∙ found in
            ap (λ t. t.seq) (sym (some-inj found_last)) ∙ e ∙ h.counted ∙ sym last
        | no before ↦ h.numbered i e' (sym (get_elem?-snoc_ne entries entry i before) ∙ found)
      ]

  -- `record` appends an entry with the next number, or refuses dependencies for their number and
  -- changes nothing. The numbers have not run out.
  pub record_eviction_lem :
      (m : Manifest K S) (entries : List (ManifestEntry K)) (id : K) (deps : List K)
      → IsLog m entries
      → suc (length entries) < word
      → ((length deps ≤ max_deps)
          × (m' : Manifest K S) × (record_eviction sp default max_deps n id deps m
              ≡ some (ok tt, m'))
          × IsLog m' (entries ++ eviction default max_deps id deps (length entries) ∷ []))
        ⊎ ((max_deps < length deps)
            × (record_eviction sp default max_deps n id deps m
                ≡ some (err (too_many_dependencies max_deps (length deps)), m)))
  unfolding record_eviction
  record_eviction_lem m entries id deps h room = elim (dec_lt max_deps (length deps)) [
    | yes over ↦ inr (over, rw (lt→ltb max_deps (length deps) over) refl)
    | no fits ↦
        let (m', runs, log) =
          append_entry_lem m entries (eviction default max_deps id deps m.seq) h room refl in
        inl (
          omega arith,
          m',
          rw (le→ltb max_deps (length deps) (omega arith), runs) refl,
          subst (λ t. IsLog m' (entries ++ eviction default max_deps id deps t ∷ [])) h.counted log,
        )
  ]

  -- `record_tombstone` appends an entry with the next number.
  pub record_tombstone_lem :
      (m : Manifest K S) (entries : List (ManifestEntry K)) (id : K)
      → IsLog m entries
      → suc (length entries) < word
      → (m' : Manifest K S) × (record_tombstone sp default max_deps n id m ≡ some m')
        × IsLog m' (entries ++ removal default max_deps id (length entries) ∷ [])
  unfolding record_tombstone
  record_tombstone_lem m entries id h room =
      let (m', runs, log) =
        append_entry_lem m entries (removal default max_deps id m.seq) h room refl in
      (
        m',
        runs,
        subst (λ t. IsLog m' (entries ++ removal default max_deps id t ∷ [])) h.counted log,
      )

  -- After `flush` of a manifest the spout has taken every entry ever recorded, in order, and no
  -- entry is lost.
  pub flush_manifest_lem :
      (m : Manifest K S) (entries : List (ManifestEntry K))
      → IsLog m entries
      → (m' : Manifest K S) × (flush_manifest sp default max_deps n m ≡ some m')
        × IsLog m' entries
        × (m'.ring.spout ≡ sent sp entries s)
  unfolding flush_manifest
  flush_manifest_lem m entries h =
      let (ring', runs, holds) = flush_refines sp c m.ring (h.recent, sent sp h.old s) h.holds in
      let all = sym (sent-append sp h.old h.recent s) ∙ ap (λ t. sent sp t s) (sym h.split) in
      (
        record m { ring = ring' },
        rw runs refl,
        record {
          old = entries;
          recent = [];
          split = sym (append-nil entries);
          holds = subst (λ t. Holds n ring' ([], t)) all holds;
          counted = h.counted;
          numbered = h.numbered;
        },
        holds.state ∙ all,
      )

  -- A new manifest has recorded nothing.
  pub new_manifest-IsLog : IsLog (new_manifest sp default max_deps n s) []
  unfolding new_manifest
  new_manifest-IsLog = record {
    old = [];
    recent = [];
    split = refl;
    holds =
        subst (λ t. Holds {T = ManifestEntry K} n (with_spout_cold n s) ([], t))
          (sym (sent-nil sp s)) (with_spout_cold-Holds c s);
    counted = refl;
    numbered = λ i e found. absurd (none≢some found);
  }
