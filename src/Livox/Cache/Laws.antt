-- ===== src/Livox/Cache/Laws.antt =====
-- The index table: which places are taken, and that no two lidars share one.
use mathlib.Core.Option.{some-injective}
use native.Mathlib.Decide.{ℕ_discrete}
use firt_version_ws.Prelude.{
  ℕ, zero, suc, ◌+◌, ◌<◌, ◌≤◌, Bool, true, false, ◌≡◌, ◌≢◌, refl, sym, ap, ◌∙◌, Option, none, some,
  List, [], ◌∷◌, arith, inl, inr, Bool-cases, Option-cases, get_or, length, length-set,
  get_or-set_self, get_or-set_ne,
}
use firt_version_ws.Livox.Data.{livox_lidar_type, max_source_lidar}
use firt_version_ws.Livox.Cache.{
  CacheIndex, lookup, erase_key, first_free, take_place, place_for, get_free_index, get_index,
  give_back, reset_index, generate_index_key, new_cache_index,
}

first_free-lem :
    (rounds i : ℕ) (cache : List Bool) {j : ℕ}
    → first_free rounds i cache ≡ some j
    → (i ≤ j) × (j < i + rounds) × (get_or cache j true ≡ false)
unfolding first_free
first_free-lem zero i cache h = ground arith
first_free-lem (suc rounds) i cache {j} h = elim (Bool-cases (get_or cache i true)) [
  | inl taken ↦
      let (a, b, c) = first_free-lem rounds (i + 1) cache (rw taken at h) in
      (omega arith, omega arith, c)
  | inr free ↦
      let here : i ≡ j = some-injective _ _ (rw free at h) in
      rw (← here) (omega arith, omega arith, free)
]

-- No place is free only if every one is taken.
first_free-none :
    (rounds i j : ℕ) (cache : List Bool)
    → first_free rounds i cache ≡ none
    → i ≤ j
    → j < i + rounds
    → get_or cache j true ≡ true
unfolding first_free
first_free-none zero i j cache h a b = absurd (omega arith)
first_free-none (suc rounds) i j cache h a b = elim (Bool-cases (get_or cache i true)) [
  | inl taken ↦ elim (ℕ_discrete i j) [
    | yes here ↦ rw (← here) taken
    | no later ↦ first_free-none rounds (i + 1) j cache (rw taken at h) (omega arith) (omega arith)
  ]
  | inr free ↦ absurd (ground (arith, h, free))
]

-- 32 places, of which each key on the map has one that is taken, and no two keys the same one.
pub record IsTable (c : CacheIndex) : Type 0 where
  pub places : length c.index_cache ≡ 32
  pub in_range : (key i : ℕ) → lookup key c.map_index ≡ some i → i < 32
  pub taken : (key i : ℕ) → lookup key c.map_index ≡ some i → get_or c.index_cache i true ≡ true
  pub apart :
      (key other i : ℕ)
      → lookup key c.map_index ≡ some i
      → lookup other c.map_index ≡ some i
      → key ≡ other

pub new_cache_index-IsTable : IsTable new_cache_index
unfolding new_cache_index
new_cache_index-IsTable = record {
  places = refl;
  in_range = λ key i h. ground arith;
  taken = λ key i h. ground arith;
  apart = λ key other i h k. ground arith;
}

lookup-erase_self : (key : ℕ) (m : List (ℕ × ℕ)) → lookup key (erase_key key m) ≡ none
lookup-erase_self key [] = refl
lookup-erase_self key ((k, i) ∷ rest) = ground (arith, lookup-erase_self key rest)

lookup-erase_ne :
    (key other : ℕ) (m : List (ℕ × ℕ))
    → other ≢ key
    → lookup other (erase_key key m) ≡ lookup other m
lookup-erase_ne key other [] n = refl
lookup-erase_ne key other ((k, i) ∷ rest) n = ground (arith, lookup-erase_ne key other rest n)

-- A key that is found after another key is erased is not that key, and has its old place.
lookup-erase_key :
    (key other i : ℕ) (m : List (ℕ × ℕ))
    → lookup other (erase_key key m) ≡ some i
    → (other ≢ key) × (lookup other m ≡ some i)
lookup-erase_key key other i m h = elim (ℕ_discrete other key) [
  | yes same ↦ absurd (ground (arith, lookup-erase_self key m, rw same at h))
  | no differ ↦ (differ, sym (lookup-erase_ne key other m differ) ∙ h)
]

module _ (c : CacheIndex) (t : IsTable c) where
  -- A new key gets a place that no other has.
  place_for-IsTable :
      (key : ℕ)
      → lookup key c.map_index ≡ none
      → (i : ℕ) → first_free max_source_lidar 0 c.index_cache ≡ some i
      → IsTable (take_place key c (some i)).1
  place_for-IsTable key new i found =
      let (a, b, free) = first_free-lem 32 0 c.index_cache found in
      let inside : i < length c.index_cache = omega (arith, t.places) in
      let not_free : (k : ℕ) → lookup k c.map_index ≡ some i → ⊥ =
        λ k h. ground (arith, t.taken k i h, free) in
      record {
        places = length-set c.index_cache i true ∙ t.places;
        in_range = λ k j h. ground (arith, t.in_range k j);
        taken = λ k j h. elim (ℕ_discrete i j) [
          | yes same ↦ rw (← same) (get_or-set_self c.index_cache i true true inside)
          | no differ ↦
              get_or-set_ne c.index_cache i j true true differ
              ∙ t.taken k j (ground (arith, differ))
        ];
        apart = λ k l j h g. ground (arith, t.apart k l j, not_free k, not_free l);
      }

  give_back-IsTable :
      (key i : ℕ) → lookup key c.map_index ≡ some i → IsTable (give_back key c (some i))
  give_back-IsTable key i h = record {
    places = length-set c.index_cache i false ∙ t.places;
    in_range = λ k j g. t.in_range k j (lookup-erase_key key k j c.map_index g).1;
    taken = λ k j g.
        let (differ, old) = lookup-erase_key key k j c.map_index g in
        let apart : i ≢ j = λ e. differ (t.apart k key j old (h ∙ ap some e)) in
        get_or-set_ne c.index_cache i j false true apart ∙ t.taken k j old;
    apart = λ k l j g e.
        t.apart k l j (lookup-erase_key key k j c.map_index g).1
          (lookup-erase_key key l j c.map_index e).1;
  }

-- What an allocation did, for a lidar of the type that is served.
pub record Allocated (handle i : ℕ) (c d : CacheIndex) : Type 0 where
  pub in_range : i < 32
  pub found : get_index livox_lidar_type handle d ≡ some i
  pub others :
      (other : ℕ)
      → other ≢ handle
      → get_index livox_lidar_type other d ≡ get_index livox_lidar_type other c

-- It failed: nothing is changed, and all places are taken.
pub record IsUsedUp (c d : CacheIndex) : Type 0 where
  pub same : d ≡ c
  pub all_taken : (j : ℕ) → j < 32 → get_or c.index_cache j true ≡ true

abbrev pub Outcome : ℕ → CacheIndex → Option ℕ × CacheIndex → Type 0
Outcome handle c (none, d) = IsUsedUp c d
Outcome handle c (some i, d) = Allocated handle i c d

place_for-Outcome :
    (handle : ℕ) (c : CacheIndex)
    → IsTable c
    → (o : Option ℕ) → lookup handle c.map_index ≡ o
    → IsTable (place_for handle c o).1 × Outcome handle c (place_for handle c o)
unfolding get_index generate_index_key place_for
place_for-Outcome handle c t (some i) h =
    (t, record { in_range = t.in_range handle i h; found = h; others = λ other n. refl })
place_for-Outcome handle c t none h =
    elim (Option-cases (first_free max_source_lidar 0 c.index_cache)) [
      | inl full ↦ rw full (
        t,
        record {
          same = refl;
          all_taken = λ j l. first_free-none 32 0 j c.index_cache full (omega arith) (omega arith);
        },
      )
      | inr (i, found) ↦
          let (a, b, free) = first_free-lem 32 0 c.index_cache found in
          rw found (
            place_for-IsTable c t handle h i found,
            record { in_range = b; found = ground arith; others = λ other n. ground (arith, n) },
          )
    ]

-- On a table that is in order (IsTable) GetFreeIndex keeps it so, and either gives the lidar an index below 32 that GetIndex then
-- returns, with every other lidar's index as it was, or changes nothing because all are taken.
pub get_free_index-Outcome :
    (handle : ℕ) (c : CacheIndex)
    → IsTable c
    → IsTable (get_free_index livox_lidar_type handle c).1
      × Outcome handle c (get_free_index livox_lidar_type handle c)
unfolding get_free_index generate_index_key
get_free_index-Outcome handle c t = place_for-Outcome handle c t (lookup handle c.map_index) refl

-- ResetIndex keeps the table, takes the lidar's index away, and no other's.
pub reset_index-lem :
    (handle : ℕ) (c : CacheIndex)
    → IsTable c
    → let d = reset_index livox_lidar_type handle c in
      IsTable d
      × (get_index livox_lidar_type handle d ≡ none)
      × ((other : ℕ)
          → other ≢ handle
          → get_index livox_lidar_type other d ≡ get_index livox_lidar_type other c)
unfolding reset_index generate_index_key get_index
reset_index-lem handle c t = elim (Option-cases (lookup handle c.map_index)) [
  | inl e ↦ rw e (t, e, λ other n. refl)
  | inr (i, e) ↦ rw e (
    give_back-IsTable c t handle i e,
    lookup-erase_self handle c.map_index,
    λ other n. lookup-erase_ne handle other c.map_index n,
  )
]

-- The calls that change the table.
pub data CacheOp : Type 0 where
  allocate release : ℕ → CacheOp

unfoldable pub cache_run : List CacheOp → CacheIndex → CacheIndex
cache_run [] c = c
cache_run (allocate handle ∷ ops) c = cache_run ops (get_free_index livox_lidar_type handle c).1
cache_run (release handle ∷ ops) c = cache_run ops (reset_index livox_lidar_type handle c)

cache_run-IsTable : (ops : List CacheOp) (c : CacheIndex) → IsTable c → IsTable (cache_run ops c)
unfolding cache_run
cache_run-IsTable [] c t = t
cache_run-IsTable (allocate handle ∷ ops) c t =
    cache_run-IsTable ops _ (get_free_index-Outcome handle c t).0
cache_run-IsTable (release handle ∷ ops) c t =
    cache_run-IsTable ops _ (reset_index-lem handle c t).0

-- After any allocations and releases from a new table, two lidars with the same index are the same,
-- and the index is below 32.
pub cache_run-apart :
    (ops : List CacheOp) (handle other i : ℕ)
    → get_index livox_lidar_type handle (cache_run ops new_cache_index) ≡ some i
    → get_index livox_lidar_type other (cache_run ops new_cache_index) ≡ some i
    → (handle ≡ other) × (i < 32)
unfolding get_index generate_index_key
cache_run-apart ops handle other i h k =
    let t = cache_run-IsTable ops new_cache_index new_cache_index-IsTable in
    (t.apart handle other i h k, t.in_range handle i h)
