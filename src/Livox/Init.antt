-- ===== src/Livox/Init.antt =====
-- lds_lidar.cpp: class LdsLidar, which reads the configuration, gives each configured lidar its device
-- and starts the SDK, with the parts of PubHandler that are set up then. There is one LdsLidar, the one
-- that g_lds_ldiar points to.
pub mod Devices
pub mod Laws
use firt_version_ws.Prelude.{
  ℕ, zero, suc, ◌+◌, ◌/◌, Bool, true, false, not, if◌then◌else◌, Option, none, some, List, [], ◌∷◌,
  ◌==◌, ltb, ◌>>=◌, get_elem?, set, replicate, and32, ℤ, pos, negsuc, sub_ℕ, eqb_ℤ, String,
}
use firt_version_ws.Platform.{Platform}
use firt_version_ws.Livox.Data.{livox_lidar_type, max_source_lidar}
use firt_version_ws.Livox.Ldq.{null, deinit_queue}
use firt_version_ws.Livox.Cache.{CacheIndex, get_free_index, new_cache_index}
use firt_version_ws.Livox.Lds.{
  LidarDevice, Lds, UserLivoxLidarConfig, ConnectState, off, reset_lidars,
}
use firt_version_ws.Livox.Config.{
  Json, File, ConfigExtrinsics, ParsedConfig, parse_summary_info, parse,
}
use firt_version_ws.Livox.Frames.{ExtParameter}
use firt_version_ws.Livox.Frames.Timer.{PubHandler, get_lidar_id, insert, set_point_cloud_config}

-- The SDK and the driver's threads, as far as the driver starts and stops them.
pub record DriverServices : Type 0 where
  pub sdk_running : Bool
  pub info_change_callback : Bool
  pub points_callback : Bool
  pub imu_callback : Bool
  pub lidar_listen_id : ℕ
  pub point_process_thread : Bool
  pub is_quit : Bool
  -- files that are open
  pub files : ℕ

-- LdsLidar with its base, and the PubHandler.
pub record LdsLidar (R : Type 0) : Type 0 where
  pub lds : Lds R
  pub lidar_type : ℕ
  pub is_initialized : Bool
  pub pub_handler : PubHandler R
  pub services : DriverServices

-- What the start meets: the file as it is read twice, whether LivoxLidarSdkInit succeeds, and the
-- number that LivoxLidarAddPointCloudObserver gives.
pub record Outside (V : Type 0) : Type 0 where
  pub summary_file : File V
  pub user_file : File V
  pub sdk_inits : Bool
  pub listen_id : ℕ

-- kLivoxLidarCartesianCoordinateLowData, the data type that README.md calls 2.
abbrev pub low_data : ℤ
low_data = pos 2

-- `/ 10` on an int32_t.
unfoldable pub tenth : ℤ → ℤ
tenth (pos n) = pos (n / 10)
tenth (negsuc n) = sub_ℕ 0 ((n + 1) / 10)

-- LdsLidar(): the instance is static, so that its memory is 0 at first. kSourceRawLidar is 0.
unfoldable pub zero_device : {R : Type 0} → LidarDevice R
zero_device = record {
  lidar_type = 0;
  handle = 0;
  data_src = 0;
  connect_state = off;
  packets = record { storage_packet = null; rd_idx = 0; wr_idx = 0; mask = 0; size = 0 };
  imu_data = [];
  livox_config = record {
    handle = 0;
    pcl_data_type = pos 0;
    pattern_mode = pos 0;
    blind_spot_set = pos 0;
    dual_emit_en = pos 0;
    set_bits = 0;
  };
}

-- The constructor of Lds and then that of LdsLidar reset the devices. `none`: a fault.
unfoldable pub new_lds : {R : Type 0} → R → Option (Lds R)
unfolding reset_lidars deinit_queue zero_device new_cache_index
new_lds publish_freq = do
  once ← reset_lidars 0 (replicate 32 zero_device)
  lidars ← reset_lidars 0 once
  some (record {
    lidars = lidars;
    pcd_semaphore = 0;
    imu_semaphore = 0;
    cache_index = new_cache_index;
    publish_freq = publish_freq;
    request_exit = false;
  })

-- `lidar_summary_info_.lidar_type & kLivoxLidarType`
unfoldable pub is_livox_lidar : ℕ → Bool
is_livox_lidar lidar_type = not (and32 lidar_type livox_lidar_type == 0)

-- The fields of the device that a config fills in.
unfoldable pub configured : {R : Type 0} → ParsedConfig R → LidarDevice R → LidarDevice R
configured c device = record device {
  lidar_type = livox_lidar_type;
  livox_config = c.livox_config;
  handle = c.livox_config.handle;
}

-- `value` is the number that an int32_t is.
module _ {R : Type 0} (value : ℤ → R) where
  -- The LidarExtParameter of a config.
  unfoldable pub ext_parameter_of : ParsedConfig R → ExtParameter R
  unfolding tenth
  ext_parameter_of c =
      let e = c.extrinsic_param in
      let scale : ℤ → ℤ = λ z. if eqb_ℤ c.livox_config.pcl_data_type low_data then tenth z else z in
      record {
        roll = e.roll;
        pitch = e.pitch;
        yaw = e.yaw;
        x = value (scale e.x);
        y = value (scale e.y);
        z = value (scale e.z);
      }

  unfoldable pub add_lidars_ext_param : ℕ → ℕ → ExtParameter R → PubHandler R → PubHandler R
  unfolding get_lidar_id
  add_lidars_ext_param lidar_type handle param h = record h {
    lidar_extrinsics = insert (get_lidar_id lidar_type handle) param h.lidar_extrinsics;
  }

  unfoldable pub clear_all_lidars_extrinsic_params : PubHandler R → PubHandler R
  clear_all_lidars_extrinsic_params h = record h { lidar_extrinsics = [] }

  -- What follows GetFreeIndex in the loop of InitLivoxLidar. `none`: an index past the devices.
  abbrev pub fill_in : ParsedConfig R → LdsLidar R → Option ℕ × CacheIndex → Option (LdsLidar R)
  fill_in c s (none, cache) = some (record s { lds = record s.lds { cache_index = cache } })
  fill_in c s (some index, cache) = do
    device ← get_elem? s.lds.lidars index
    some (record s {
      lds = record s.lds {
        cache_index = cache;
        lidars = set s.lds.lidars index (configured c device);
      };
      pub_handler =
          add_lidars_ext_param livox_lidar_type c.livox_config.handle (ext_parameter_of c)
            s.pub_handler;
    })

  -- One round of the loop.
  unfoldable pub fill_in_device : ParsedConfig R → LdsLidar R → Option (LdsLidar R)
  unfolding ext_parameter_of add_lidars_ext_param configured
  fill_in_device c s =
      fill_in c s (get_free_index livox_lidar_type c.livox_config.handle s.lds.cache_index)

  unfoldable pub fill_in_devices : List (ParsedConfig R) → LdsLidar R → Option (LdsLidar R)
  fill_in_devices [] s = some s
  fill_in_devices (c ∷ user_configs) s = do s' ← fill_in_device c s; fill_in_devices user_configs s'

module _ {R : Type 0} ⦃p : Platform R⦄ (j : Json R) (ip_string_to_num : String → ℕ) (value : ℤ → R)
    (cast : R → ℕ) (outside : Outside j.Value) where
  -- The result and the state. `none`: a fault.
  unfoldable pub init_livox_lidar : LdsLidar R → Option (Bool × LdsLidar R)
  unfolding fill_in_devices
  init_livox_lidar s = do
    r ← parse j ip_string_to_num outside.user_file [] s.services.files
    let opened = record s { services = record s.services { files = r.2 } }
    if not outside.sdk_inits then some (false, opened) else do
      filled ← fill_in_devices value r.1 opened
      some (
        true,
        record filled {
          services = record filled.services { sdk_running = true; info_change_callback = true };
        },
      )

  unfoldable pub init_lidars : LdsLidar R → Option (Bool × LdsLidar R)
  unfolding init_livox_lidar
  init_lidars s = do
    (ok, lidar_type, files) ←
        parse_summary_info j outside.summary_file s.lidar_type s.services.files
    let read : LdsLidar R = record s {
      lidar_type = lidar_type;
      services = record s.services { files = files };
    }
    if not ok
        then some (false, s)
        else if is_livox_lidar lidar_type
        then init_livox_lidar read
        else some (true, read)

  -- SetPointCloudsCallback, SetImuDataCallback and SetPointCloudConfig, which starts the thread.
  unfoldable pub set_lidar_pub_handle : LdsLidar R → LdsLidar R
  unfolding set_point_cloud_config
  set_lidar_pub_handle s = record s {
    pub_handler = set_point_cloud_config cast s.lds.publish_freq s.pub_handler;
    services = record s.services {
      points_callback = true;
      imu_callback = true;
      lidar_listen_id = outside.listen_id;
      point_process_thread = true;
    };
  }

  -- Start, with LivoxLidarStart.
  unfoldable pub start : LdsLidar R → Bool
  start s = true

  unfoldable pub init_lds_lidar : LdsLidar R → Option (Bool × LdsLidar R)
  unfolding init_lidars set_lidar_pub_handle start
  init_lds_lidar s = if s.is_initialized then some (false, s) else do
    r ← init_lidars s
    some (
        if not r.0
        then (false, r.1)
        else if not (start r.1)
        then (false, set_lidar_pub_handle r.1)
        else (true, record (set_lidar_pub_handle r.1) { is_initialized = true }))

module _ {R : Type 0} where
  -- DeInitLdsLidar, for which PrepareExit stands too. The field is_initialized keeps its value.
  unfoldable pub de_init_lds_lidar : LdsLidar R → LdsLidar R
  unfolding is_livox_lidar
  de_init_lds_lidar s =
      if not s.is_initialized
      then s
      else if is_livox_lidar s.lidar_type
      then record s { services = record s.services { sdk_running = false } }
      else s

  -- PubHandler::Uninit with RequestExit: the thread is joined.
  unfoldable pub uninit : LdsLidar R → LdsLidar R
  uninit s = record s {
    services = record s.services {
      lidar_listen_id = 0;
      is_quit = true;
      point_process_thread = false;
    };
  }
