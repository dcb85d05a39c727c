-- ===== src/Livox/Settings.antt =====
-- call_back/livox_lidar_callback.cpp: the settings that the driver asks a lidar for, and the answers.
-- A device publishes once its settings are answered.
pub mod Bits
pub mod Laws
pub mod Handshake
use firt_version_ws.Prelude.{
  ℕ, zero, suc, ◌+◌, ◌-◌, ◌/◌, ◌%◌, Bool, true, false, if◌then◌else◌, Option, none, some, List, [],
  ◌∷◌, ◌++◌, ◌==◌, ◌>>=◌, get_elem?, set, ℤ, pos, negsuc,
}
use firt_version_ws.Livox.Data.{livox_lidar_type}
use firt_version_ws.Livox.Cache.{get_index, get_free_index}
use firt_version_ws.Livox.Lds.{
  LidarDevice, Lds, UserLivoxLidarConfig, ConnectState, off, on, config, sampling,
}

-- LivoxLidarConfigCodeBit
pub data Setting : Type 0 where
  data_type scan_pattern blind_spot dual_emit : Setting

abbrev pub weight : Setting → ℕ
weight data_type = 1
weight scan_pattern = 2
weight blind_spot = 4
weight dual_emit = 8

-- livox_status, as far as the callbacks tell its values apart.
pub data Status : Type 0 where
  success timeout failed : Status

-- What is asked of the SDK, for a lidar's handle.
pub data Command : Type 0 where
  set_setting : Setting → ℕ → ℤ → Command
  set_install_attitude set_work_mode_normal enable_imu_data : ℕ → Command

-- `bits |= weight` and `bits &= ~weight`.
unfoldable pub set_bit : ℕ → ℕ → ℕ
set_bit w bits = if bits / w % 2 == 0 then bits + w else bits

unfoldable pub clear_bit : ℕ → ℕ → ℕ
clear_bit w bits = if bits / w % 2 == 0 then bits else bits - w

-- Whether a setting is -1.
abbrev pub is_absent : ℤ → Bool
is_absent (negsuc zero) = true
is_absent _ = false

unfoldable pub value_of : Setting → UserLivoxLidarConfig → ℤ
value_of data_type c = c.pcl_data_type
value_of scan_pattern c = c.pattern_mode
value_of blind_spot c = c.blind_spot_set
value_of dual_emit c = c.dual_emit_en

-- `config.dual_emit_en == 0 ? false : true`, as a number.
abbrev pub as_bool : ℤ → ℤ
as_bool (pos zero) = pos 0
as_bool _ = pos 1

-- The value that is asked for at first.
unfoldable pub first_value : Setting → UserLivoxLidarConfig → ℤ
unfolding value_of
first_value dual_emit c = as_bool c.dual_emit_en
first_value setting c = value_of setting c

-- One of the four parts under the lock.
unfoldable pub request_setting :
    ℕ → Setting → List Command × UserLivoxLidarConfig → List Command × UserLivoxLidarConfig
unfolding set_bit value_of first_value
request_setting handle setting (commands, c) =
    if is_absent (value_of setting c) then (commands, c) else (
      commands ++ (set_setting setting handle (first_value setting c) ∷ []),
      record c { set_bits = set_bit (weight setting) c.set_bits },
    )

unfoldable pub request_settings : ℕ → UserLivoxLidarConfig → List Command × UserLivoxLidarConfig
unfolding request_setting
request_settings handle c = request_setting handle dual_emit (
    request_setting handle blind_spot
      (request_setting handle scan_pattern (request_setting handle data_type ([], c))))

module _ {R : Type 0} where
  -- GetLidarDevice, with the index. The inner `none` is nullptr.
  unfoldable pub get_lidar_device : ℕ → Lds R → Option (Option (ℕ × LidarDevice R))
  get_lidar_device handle s = elim (get_index livox_lidar_type handle s.cache_index) [
    | none ↦ some none
    | some index ↦ do device ← get_elem? s.lidars index; some (some (index, device))
  ]

  -- The branch of LidarInfoChangeCallback for a lidar that has no device yet.
  unfoldable pub add_lidar_device : ℕ → Lds R → Option (List Command × Lds R)
  add_lidar_device handle s =
      let (found, cache) = get_free_index livox_lidar_type handle s.cache_index in
      elim found [
        | none ↦ some ([], record s { cache_index = cache })
        | some index ↦ do
          device ← get_elem? s.lidars index
          some (
            set_work_mode_normal handle ∷ enable_imu_data handle ∷ [],
            record s {
              cache_index = cache;
              lidars = set s.lidars index (record device { lidar_type = livox_lidar_type });
            },
          )
      ]

  -- The other branch, with the calls that follow both.
  unfoldable pub configure_device : ℕ → LidarDevice R → List Command × LidarDevice R
  unfolding request_settings
  configure_device handle device =
      let (commands, c) = request_settings handle device.livox_config in
      (
        commands
            ++ (set_install_attitude c.handle
                ∷ set_work_mode_normal handle
                ∷ enable_imu_data handle
                ∷ []),
        record device { livox_config = c },
      )

  unfoldable pub lidar_info_change_callback : ℕ → Lds R → Option (List Command × Lds R)
  unfolding get_lidar_device add_lidar_device configure_device
  lidar_info_change_callback handle s = do
    found ← get_lidar_device handle s
    elim found [
      | none ↦ add_lidar_device handle s
      | some (index, device) ↦ some (
        (configure_device handle device).0,
        record s { lidars = set s.lidars index (configure_device handle device).1 },
      )
    ]

  -- The branch of the four callbacks for a success.
  unfoldable pub acknowledge : Setting → LidarDevice R → LidarDevice R
  unfolding clear_bit
  acknowledge setting device =
      let bits = clear_bit (weight setting) device.livox_config.set_bits in
      record device {
        livox_config = record device.livox_config { set_bits = bits };
        connect_state = if bits == 0 then sampling else device.connect_state;
      }

  -- SetDataTypeCallback, SetPatternModeCallback, SetBlindSpotCallback and SetDualEmitCallback.
  unfoldable pub set_setting_callback : Setting → Status → ℕ → Lds R → Option (List Command × Lds R)
  unfolding get_lidar_device acknowledge value_of
  set_setting_callback setting status handle s = do
    found ← get_lidar_device handle s
    elim found [
      | none ↦ some ([], s)
      | some (index, device) ↦ elim status [
        | success ↦ some ([], record s { lidars = set s.lidars index (acknowledge setting device) })
        | timeout ↦ some (set_setting setting handle (value_of setting device.livox_config) ∷ [], s)
        | failed ↦ some ([], s)
      ]
    ]

  -- SetAttitudeCallback
  unfoldable pub set_attitude_callback : Status → ℕ → Lds R → Option (List Command)
  unfolding get_lidar_device
  set_attitude_callback status handle s = do
    found ← get_lidar_device handle s
    some (elim found [
      | none ↦ []
      | some (index, device) ↦ elim status [
        | success ↦ []
        | timeout ↦ set_install_attitude device.livox_config.handle ∷ []
        | failed ↦ []
      ]
    ])

  -- EnableLivoxLidarImuDataCallback; `answered` is whether there is a response.
  unfoldable pub enable_imu_data_callback : Status → Bool → ℕ → Lds R → Option (List Command)
  unfolding get_lidar_device
  enable_imu_data_callback status answered handle s = do
    found ← get_lidar_device handle s
    some (elim found [
      | none ↦ []
      | some (index, device) ↦ elim status [
        | success ↦ []
        | timeout ↦ if answered then enable_imu_data handle ∷ [] else []
        | failed ↦ []
      ]
    ])

-- WorkModeChangedCallback
unfoldable pub work_mode_changed_callback : Status → ℕ → List Command
work_mode_changed_callback success handle = []
work_mode_changed_callback _ handle = set_work_mode_normal handle ∷ []
