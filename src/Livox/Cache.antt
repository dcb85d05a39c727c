-- ===== src/Livox/Cache.antt =====
-- comm/cache_index.cpp: the table from a lidar's handle to its place among the 32 devices. The key
-- "livox_lidar_" + handle of the one type that is served is written as the handle.
pub mod Laws
use firt_version_ws.Prelude.{
  ℕ, zero, suc, ◌+◌, Bool, true, false, if◌then◌else◌, Option, none, some, List, [], ◌∷◌, ◌==◌,
  ◌>>=◌, get_or, set, replicate,
}
use firt_version_ws.Livox.Data.{livox_lidar_type, max_source_lidar}

-- std::map from keys to indices, the key written last first.
pub record CacheIndex : Type 0 where
  pub map_index : List (ℕ × ℕ)
  pub index_cache : List Bool

abbrev pub lookup : ℕ → List (ℕ × ℕ) → Option ℕ
lookup key [] = none
lookup key ((k, i) ∷ rest) = if key == k then some i else lookup key rest

abbrev pub erase_key : ℕ → List (ℕ × ℕ) → List (ℕ × ℕ)
erase_key key [] = []
erase_key key ((k, i) ∷ rest) =
    let others = erase_key key rest in if key == k then others else (k, i) ∷ others

unfoldable pub new_cache_index : CacheIndex
new_cache_index = record { map_index = []; index_cache = replicate 32 false }

-- `none` is -1.
unfoldable pub generate_index_key : ℕ → ℕ → Option ℕ
generate_index_key lidar_type handle = if lidar_type == livox_lidar_type then some handle else none

-- The loop for a free place, at i with `rounds` to go.
unfoldable pub first_free : ℕ → ℕ → List Bool → Option ℕ
first_free zero i cache = none
first_free (suc rounds) i cache =
    let rest = first_free rounds (i + 1) cache in if get_or cache i true then rest else some i

-- The part of GetFreeIndex for a key that has no place yet.
abbrev pub take_place : ℕ → CacheIndex → Option ℕ → Option ℕ × CacheIndex
take_place key c none = (none, c)
take_place key c (some i) =
    (some i, record { map_index = (key, i) ∷ c.map_index; index_cache = set c.index_cache i true })

unfoldable pub place_for : ℕ → CacheIndex → Option ℕ → Option ℕ × CacheIndex
unfolding first_free
place_for key c (some i) = (some i, c)
place_for key c none = take_place key c (first_free max_source_lidar 0 c.index_cache)

-- The index, or `none` for -1.
unfoldable pub get_free_index : ℕ → ℕ → CacheIndex → Option ℕ × CacheIndex
unfolding generate_index_key
get_free_index lidar_type handle c = elim (generate_index_key lidar_type handle) [
  | none ↦ (none, c)
  | some key ↦ place_for key c (lookup key c.map_index)
]

unfoldable pub get_index : ℕ → ℕ → CacheIndex → Option ℕ
unfolding generate_index_key
get_index lidar_type handle c = do
  key ← generate_index_key lidar_type handle
  lookup key c.map_index

abbrev pub or_free : ℕ → ℕ → CacheIndex → Option ℕ → Option ℕ × CacheIndex
or_free lidar_type handle c (some i) = (some i, c)
or_free lidar_type handle c none = get_free_index lidar_type handle c

unfoldable pub lvx_get_index : ℕ → ℕ → CacheIndex → Option ℕ × CacheIndex
unfolding generate_index_key get_free_index
lvx_get_index lidar_type handle c = elim (generate_index_key lidar_type handle) [
  | none ↦ (none, c)
  | some key ↦ or_free lidar_type handle c (lookup key c.map_index)
]

abbrev pub give_back : ℕ → CacheIndex → Option ℕ → CacheIndex
give_back key c none = c
give_back key c (some i) = record {
  map_index = erase_key key c.map_index;
  index_cache = set c.index_cache i false;
}

unfoldable pub reset_index : ℕ → ℕ → CacheIndex → CacheIndex
unfolding generate_index_key
reset_index lidar_type handle c = elim (generate_index_key lidar_type handle) [
  | none ↦ c
  | some key ↦ give_back key c (lookup key c.map_index)
]
