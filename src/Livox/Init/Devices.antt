-- ===== src/Livox/Init/Devices.antt =====
-- The loop of InitLivoxLidar: which device each configured lidar gets.
use native.Mathlib.Decide.{ℕ_discrete}
use mathlib.Core.Option.{some-injective}
use firt_version_ws.Prelude.{
  subst, ℕ, zero, suc, ◌+◌, ◌≤◌, ◌<◌, true, ◌≡◌, ◌≢◌, refl, sym, ap, ◌∙◌, none, some, List, [], ◌∷◌,
  All, arith, inl, inr, Bool-cases, ltb, get_or, get_elem?, set, length, length-set,
  get_or-set_self, get_or-set_ne, get_elem?-set, get_elem?-set_ne, get_elem?_of_lt, ℤ,
}
use firt_version_ws.Livox.Data.{livox_lidar_type}
use firt_version_ws.Livox.Cache.{
  CacheIndex, lookup, first_free, take_place, place_for, get_free_index, get_index,
}
use firt_version_ws.Livox.Lds.{LidarDevice}
use firt_version_ws.Livox.Config.{ParsedConfig}
use firt_version_ws.Livox.Frames.Timer.{find, get_lidar_id}
use firt_version_ws.Livox.Frames.Laws.{find-insert_self, find-insert_ne}
use firt_version_ws.Livox.Init.{
  LdsLidar, ext_parameter_of, add_lidars_ext_param, configured, fill_in, fill_in_device,
  fill_in_devices,
}

-- The first n places are taken and no other.
pub record IsFilled (n : ℕ) (c : CacheIndex) : Type 0 where
  pub places : length c.index_cache ≡ 32
  pub filled : (j : ℕ) → j < 32 → get_or c.index_cache j true ≡ ltb j n

first_free-IsFilled :
    (rounds i n : ℕ) (c : CacheIndex)
    → IsFilled n c
    → i ≤ n
    → n < i + rounds
    → i + rounds ≤ 32
    → first_free rounds i c.index_cache ≡ some n
unfolding first_free
first_free-IsFilled zero i n c f a b l = absurd (omega arith)
first_free-IsFilled (suc rounds) i n c f a b l = elim (Bool-cases (ltb i n)) [
  | inl taken ↦
      let here = f.filled i (omega arith) ∙ taken in
      let before : i < n = ground (arith, taken) in
      rw here (first_free-IsFilled rounds (i + 1) n c f (omega arith) (omega arith) (omega arith))
  | inr free ↦
      let here = f.filled i (omega arith) ∙ free in
      let same : i ≡ n = ground (arith, free) in rw here (ap some same)
]

-- The table after a new lidar has the next place.
abbrev grown : ℕ → ℕ → CacheIndex → CacheIndex
grown handle n c = (take_place handle c (some n)).1

module _ (handle n : ℕ) (c : CacheIndex) (f : IsFilled n c) (room : n < 32) where
  get_free_index-grown :
      get_index livox_lidar_type handle c ≡ none
      → get_free_index livox_lidar_type handle c ≡ (some n, grown handle n c)
  unfolding get_free_index get_index place_for firt_version_ws.Livox.Cache.generate_index_key
  get_free_index-grown new =
      let next = first_free-IsFilled 32 0 n c f (omega arith) (omega arith) (omega arith) in
      rw (new, next) refl

  grown-IsFilled : IsFilled (n + 1) (grown handle n c)
  grown-IsFilled = record {
    places = length-set c.index_cache n true ∙ f.places;
    filled = λ i l. elim (ℕ_discrete n i) [
      | yes same ↦
          rw (← same)
            (get_or-set_self c.index_cache n true true (omega (arith, f.places)) ∙ ground arith)
      | no differ ↦
          get_or-set_ne c.index_cache n i true true differ ∙ f.filled i l ∙ ground (arith, differ)
    ];
  }

  get_index-grown : get_index livox_lidar_type handle (grown handle n c) ≡ some n
  unfolding get_index firt_version_ws.Livox.Cache.generate_index_key
  get_index-grown = ground arith

  get_index-grown_ne :
      (other : ℕ)
      → other ≢ handle
      → get_index livox_lidar_type other (grown handle n c) ≡ get_index livox_lidar_type other c
  unfolding get_index firt_version_ws.Livox.Cache.generate_index_key
  get_index-grown_ne other differ = ground (arith, differ)

-- A statement of the elements of a list by their places after n, from its head and its tail.
by_place :
    {A : Type 0} (P : ℕ → A → Type 0) (a : A) (rest : List A) (n : ℕ)
    → P n a
    → ((k : ℕ) (b : A) → get_elem? rest k ≡ some b → P (n + 1 + k) b)
    → (k : ℕ) (b : A) → get_elem? (a ∷ rest) k ≡ some b
    → P (n + k) b
by_place P a rest n first later zero b e =
    let here : n + 0 ≡ n = omega arith in rw here (subst (P n) (some-injective _ _ e) first)
by_place P a rest n first later (suc k) b e =
    let here : n + suc k ≡ n + 1 + k = omega arith in rw here (later k b e)

abbrev pub handle_of : {R : Type 0} → ParsedConfig R → ℕ
handle_of c = c.livox_config.handle

-- No two configs are for the same lidar.
abbrev pub Apart : {R : Type 0} → List (ParsedConfig R) → Type 0
Apart [] = Unit {0}
Apart (c ∷ cs) = All (λ d. handle_of d ≢ handle_of c) cs × Apart cs

-- n lidars have a device each, the first ones.
pub record IsPartly {R : Type 0} (n : ℕ) (s : LdsLidar R) : Type 0 where
  pub filled : IsFilled n s.lds.cache_index
  pub devices : length s.lds.lidars ≡ 32

module _ {R : Type 0} (value : ℤ → R) where
  -- The lidar of the config has the device at the index, which knows the config, and the frames'
  -- handler will find its extrinsic parameters.
  pub record HasDevice (index : ℕ) (c : ParsedConfig R) (s : LdsLidar R) : Type 0 where
    pub place : get_index livox_lidar_type (handle_of c) s.lds.cache_index ≡ some index
    pub device : LidarDevice R
    pub there : get_elem? s.lds.lidars index ≡ some device
    pub lidar_type : device.lidar_type ≡ livox_lidar_type
    pub handle : device.handle ≡ handle_of c
    pub livox_config : device.livox_config ≡ c.livox_config
    pub extrinsics :
        find (handle_of c) s.pub_handler.lidar_extrinsics ≡ some (ext_parameter_of value c)

  module _ (c : ParsedConfig R) (n : ℕ) (s : LdsLidar R) (ready : IsPartly n s) (room : n < 32)
      (new : get_index livox_lidar_type (handle_of c) s.lds.cache_index ≡ none) where
    abbrev old : LidarDevice R
    old = (get_elem?_of_lt s.lds.lidars n (omega (arith, ready.devices))).0

    old-there : get_elem? s.lds.lidars n ≡ some old
    old-there = (get_elem?_of_lt s.lds.lidars n (omega (arith, ready.devices))).1

    abbrev after : LdsLidar R
    after = record s {
      lds = record s.lds {
        cache_index = grown (handle_of c) n s.lds.cache_index;
        lidars = set s.lds.lidars n (configured c old);
      };
      pub_handler =
          add_lidars_ext_param value livox_lidar_type (handle_of c) (ext_parameter_of value c)
            s.pub_handler;
    }

    fill_in_device-after : fill_in_device value c s ≡ some after
    unfolding fill_in_device
    fill_in_device-after =
        ap (fill_in value c s)
          (get_free_index-grown (handle_of c) n s.lds.cache_index ready.filled room new)
        ∙ rw old-there refl

    after-IsPartly : IsPartly (n + 1) after
    after-IsPartly = record {
      filled = grown-IsFilled (handle_of c) n s.lds.cache_index ready.filled room;
      devices = length-set s.lds.lidars n (configured c old) ∙ ready.devices;
    }

    after-HasDevice : HasDevice n c after
    unfolding configured add_lidars_ext_param get_lidar_id
    after-HasDevice = record {
      place = get_index-grown (handle_of c) n s.lds.cache_index ready.filled room;
      device = configured c old;
      there = get_elem?-set s.lds.lidars n (configured c old) old-there;
      lidar_type = refl;
      handle = refl;
      livox_config = refl;
      extrinsics =
          find-insert_self (handle_of c) (ext_parameter_of value c) s.pub_handler.lidar_extrinsics;
    }

    after-HasDevice_ne :
        (index : ℕ) (d : ParsedConfig R)
        → index < n
        → handle_of d ≢ handle_of c
        → HasDevice index d s
        → HasDevice index d after
    unfolding add_lidars_ext_param get_lidar_id
    after-HasDevice_ne index d before differ h = record {
      place =
          get_index-grown_ne (handle_of c) n s.lds.cache_index ready.filled room (handle_of d)
            differ
          ∙ h.place;
      device = h.device;
      there = get_elem?-set_ne s.lds.lidars n index (configured c old) (λ e. omega arith) ∙ h.there;
      lidar_type = h.lidar_type;
      handle = h.handle;
      livox_config = h.livox_config;
      extrinsics =
          find-insert_ne (handle_of c) (handle_of d) (ext_parameter_of value c)
            s.pub_handler.lidar_extrinsics differ
          ∙ h.extrinsics;
    }

    -- Lidars that had no device have none after.
    none_after :
        (cs : List (ParsedConfig R))
        → All (λ d. handle_of d ≢ handle_of c) cs
        → All (λ d. get_index livox_lidar_type (handle_of d) s.lds.cache_index ≡ none) cs
        → All (λ d. get_index livox_lidar_type (handle_of d) after.lds.cache_index ≡ none) cs
    none_after [] apart free = tt
    none_after (d ∷ cs) apart free = (
      get_index-grown_ne (handle_of c) n s.lds.cache_index ready.filled room (handle_of d) apart.0
          ∙ free.0,
      none_after cs apart.1 free.1,
    )

  -- The loop of InitLivoxLidar, with the first n places taken and configs of different lidars that
  -- have no device yet and fit: it runs, the k-th config gets the device n + k, and the devices of
  -- other lidars stay.
  pub fill_in_devices-HasDevice :
      (cs : List (ParsedConfig R)) (n : ℕ) (s : LdsLidar R)
      → IsPartly n s
      → n + length cs ≤ 32
      → Apart cs
      → All (λ c. get_index livox_lidar_type (handle_of c) s.lds.cache_index ≡ none) cs
      → (s' : LdsLidar R) × (fill_in_devices value cs s ≡ some s')
        × ((k : ℕ) (c : ParsedConfig R) → get_elem? cs k ≡ some c → HasDevice (n + k) c s')
        × ((i : ℕ) (d : ParsedConfig R)
            → i < n
            → All (λ c. handle_of c ≢ handle_of d) cs
            → HasDevice i d s
            → HasDevice i d s')
  unfolding fill_in_devices
  fill_in_devices-HasDevice [] n s ready room apart new =
      (s, refl, λ k c e. cc, λ i d before other h. h)
  fill_in_devices-HasDevice (c ∷ cs) n s ready room apart new =
      let fits : n < 32 = omega arith in
      let s1 = after c n s ready fits new.0 in
      let still = none_after c n s ready fits new.0 cs apart.0 new.1 in
      let (s', e, found, kept) =
        fill_in_devices-HasDevice cs (n + 1) s1 (after-IsPartly c n s ready fits new.0)
          (omega arith) apart.1 still in
      (
        s',
        rw (fill_in_device-after c n s ready fits new.0) e,
        by_place (λ i d. HasDevice i d s') c cs n
            (kept n c (omega arith) apart.0 (after-HasDevice c n s ready fits new.0)) found,
        λ i d before other h.
            kept i d (omega arith) other.1
              (after-HasDevice_ne c n s ready fits new.0 i d before (λ q. other.0 (sym q)) h),
      )
