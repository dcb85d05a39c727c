-- ===== src/Livox/Config.antt =====
-- parse_cfg_file/parse_cfg_file.cpp and parse_cfg_file/parse_livox_lidar_cfg.cpp: what the driver reads
-- from its configuration file. rapidjson's documents and inet_addr are parameters.
pub mod Laws
use firt_version_ws.Prelude.{
  is_empty, ℕ, zero, suc, ◌+◌, ◌-◌, ◌%◌, ◌^◌, Bool, true, false, not, ◌||◌, if◌then◌else◌, Option,
  none, some, List, [], ◌∷◌, ◌++◌, ltb, ◌>>=◌, ℤ, pos, negsuc, String,
}
use firt_version_ws.Platform.{Platform, dec}
use firt_version_ws.Livox.Lds.{UserLivoxLidarConfig}

-- rapidjson::Value. A `get_` that gives `none` is called on a value of another type, for which `Is…`
-- is false and the assertion of `Get…` stops the program; HasMember has it for what is no object. `at` is operator[] for a member that exists.
pub record Json (R : Type 0) : Type 1 where
  pub Value : Type 0
  pub has_member : Value → String → Option Bool
  pub at : Value → String → Value
  pub get_array : Value → Option (List Value)
  pub is_object : Value → Bool
  pub get_uint : Value → Option ℕ
  pub get_int : Value → Option ℤ
  pub get_float : Value → Option R
  pub get_string : Value → Option String

-- What fopen and ParseStream make of the file.
pub data File (V : Type 0) : Type 0 where
  missing parse_error : File V
  parsed : V → File V

-- ExtParameter, the translation in whole millimetres.
pub record ConfigExtrinsics (R : Type 0) : Type 0 where
  pub roll : R
  pub pitch : R
  pub yaw : R
  pub x : ℤ
  pub y : ℤ
  pub z : ℤ

-- UserLivoxLidarConfig with the extrinsic parameters.
pub record ParsedConfig (R : Type 0) : Type 0 where
  pub livox_config : UserLivoxLidarConfig
  pub extrinsic_param : ConfigExtrinsics R

-- The conversions of an `int` to uint8_t and int8_t.
unfoldable pub to_uint8 : ℤ → ℕ
to_uint8 (pos n) = n % 2 ^ 8
to_uint8 (negsuc n) = 2 ^ 8 - 1 - n % 2 ^ 8

unfoldable pub to_int8 : ℤ → ℤ
unfolding to_uint8
to_int8 z = if ltb (to_uint8 z) (2 ^ 7) then pos (to_uint8 z) else negsuc (2 ^ 8 - 1 - to_uint8 z)

module _ {R : Type 0} (j : Json R) where
  abbrev Value : Type 0
  Value = j.Value

  -- `HasMember(name) ? Get…() : otherwise`
  unfoldable pub member_or : {A : Type 0} → (Value → Option A) → A → Value → String → Option A
  member_or get otherwise v name = do
    there ← j.has_member v name
    if there then get (j.at v name) else some otherwise

  -- An `int` member through a conversion; -1 if it is absent.
  unfoldable pub int_setting : (ℤ → ℤ) → Value → String → Option ℤ
  unfolding member_or
  int_setting cast v name = member_or (λ u. do n ← j.get_int u; some (cast n)) (negsuc 0) v name

  -- ParseSummaryInfo: the result, the lidar type, which is kept on a failure, and the open files.
  -- `none`: an assertion fails.
  unfoldable pub parse_summary_info : File Value → ℕ → ℕ → Option (Bool × ℕ × ℕ)
  parse_summary_info missing lidar_type files = some (false, lidar_type, files)
  parse_summary_info parse_error lidar_type files = some (false, lidar_type, files)
  parse_summary_info (parsed doc) lidar_type files = do
    summary ← j.has_member doc "lidar_summary_info"
    let object = j.at doc "lidar_summary_info"
    if not summary || not (j.is_object object) then some (false, lidar_type, files) else do
      named ← j.has_member object "lidar_type"
      if not named
          then some (false, lidar_type, files)
          else elim (j.get_uint (j.at object "lidar_type")) [
            | none ↦ some (false, lidar_type, files)
            | some n ↦ some (true, n % 2 ^ 8, files)
          ]

-- `ip_string_to_num` is inet_addr.
module _ {R : Type 0} ⦃p : Platform R⦄ (j : Json R) (ip_string_to_num : String → ℕ) where
  -- The parameters after the memset.
  unfoldable pub no_extrinsics : ConfigExtrinsics R
  no_extrinsics = record {
    roll = dec 0 0;
    pitch = dec 0 0;
    yaw = dec 0 0;
    x = pos 0;
    y = pos 0;
    z = pos 0;
  }

  -- It always returns true.
  unfoldable pub parse_extrinsics : j.Value → Option (ConfigExtrinsics R)
  unfolding member_or
  parse_extrinsics v = do
    roll ← member_or j j.get_float (dec 0 0) v "roll"
    pitch ← member_or j j.get_float (dec 0 0) v "pitch"
    yaw ← member_or j j.get_float (dec 0 0) v "yaw"
    x ← member_or j j.get_int (pos 0) v "x"
    y ← member_or j j.get_int (pos 0) v "y"
    z ← member_or j j.get_int (pos 0) v "z"
    some (record { roll = roll; pitch = pitch; yaw = yaw; x = x; y = y; z = z })

  -- One round of the loop of ParseUserConfigs, for a config that has an "ip".
  unfoldable pub parse_user_config : j.Value → Option (ParsedConfig R)
  unfolding int_setting no_extrinsics parse_extrinsics member_or to_int8
  parse_user_config v = do
    ip ← j.get_string (j.at v "ip")
    pcl_data_type ← int_setting j to_int8 v "pcl_data_type"
    pattern_mode ← int_setting j to_int8 v "pattern_mode"
    blind_spot_set ← int_setting j to_int8 v "blind_spot_set"
    dual_emit_en ← int_setting j (λ n. to_int8 (pos (to_uint8 n))) v "dual_emit_en"
    extrinsic_param ← member_or j parse_extrinsics no_extrinsics v "extrinsic_parameter"
    some (record {
      livox_config = record {
        handle = ip_string_to_num ip;
        pcl_data_type = pcl_data_type;
        pattern_mode = pattern_mode;
        blind_spot_set = blind_spot_set;
        dual_emit_en = dual_emit_en;
        set_bits = 0;
      };
      extrinsic_param = extrinsic_param;
    })

  -- The loop: what it adds to user_configs.
  unfoldable pub configs_of : List j.Value → Option (List (ParsedConfig R))
  unfolding parse_user_config
  configs_of [] = some []
  configs_of (v ∷ vs) =
      let rest = configs_of vs in
      do
        ip ← j.has_member v "ip"
        if not ip then rest else do c ← parse_user_config v; cs ← rest; some (c ∷ cs)

  unfoldable pub parse_user_configs : List j.Value → Option (Bool × List (ParsedConfig R))
  unfolding configs_of
  parse_user_configs lidar_configs = do
    user_configs ← configs_of lidar_configs
    some (not (is_empty user_configs), user_configs)

  -- The last three steps of Parse, from the array: the result, the configs and the open files.
  unfoldable pub parse_array : Option (List j.Value) → ℕ → Option (Bool × List (ParsedConfig R) × ℕ)
  unfolding parse_user_configs
  parse_array none files = some (false, [], files)
  parse_array (some []) files = some (false, [], files)
  parse_array (some (v ∷ vs)) files = do
    r ← parse_user_configs (v ∷ vs)
    some (r.0, r.1, if r.0 then files + 1 else files)

  -- `none`: an assertion fails. The file is closed on all paths but that of a success.
  unfoldable pub parse :
      File j.Value → List (ParsedConfig R) → ℕ → Option (Bool × List (ParsedConfig R) × ℕ)
  unfolding parse_array
  parse missing lidar_configs files = some (false, lidar_configs, files)
  parse parse_error lidar_configs files = some (false, [], files)
  parse (parsed doc) lidar_configs files = do
    configs ← j.has_member doc "lidar_configs"
    if not configs
        then some (false, [], files)
        else parse_array (j.get_array (j.at doc "lidar_configs")) files
