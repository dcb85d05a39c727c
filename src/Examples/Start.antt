-- ===== src/Examples/Start.antt =====
-- The driver's start, its topics and its end at concrete inputs.
use Prim.Native.String.{String}
use text.Mathlib.Text.{◌==◌}
use firt_version_ws.Prelude.{
  ℕ, Bool, true, false, if◌then◌else◌, ◌≡◌, refl, Option, none, some, List, [], ◌∷◌, arith,
  get_elem?, length, replicate, ℤ, pos, negsuc, pos_part, and_bits,
}
use firt_version_ws.Platform.Millis.{millis}
use firt_version_ws.Livox.Lds.{LidarDevice, Lds, sampling}
use firt_version_ws.Livox.Cache.{new_cache_index}
use firt_version_ws.Livox.Config.{
  Json, parsed, ParsedConfig, ConfigExtrinsics, parse_summary_info, parse, parse_user_config,
}
use firt_version_ws.Livox.Config.Laws.{blind_spot_set_lem}
use firt_version_ws.Livox.Settings.{data_type, scan_pattern, blind_spot, dual_emit}
use firt_version_ws.Livox.Settings.Handshake.{handshake}
use firt_version_ws.Livox.Init.{
  LdsLidar, Outside, zero_device, new_lds, is_livox_lidar, init_lds_lidar,
}
use firt_version_ws.Livox.Init.Devices.{HasDevice}
use firt_version_ws.Livox.Init.Laws.{init_lds_lidar-HasDevice, init_lds_lidar-handshake}
use firt_version_ws.Livox.Topics.{codes}

-- Documents, with their members in order.
mutual
  data Doc : Type 0 where
    number : ℤ → Doc
    text_of : String → Doc
    object : Members → Doc
    array : Docs → Doc

  data Members : Type 0 where
    end : Members
    member : String → Doc → Members → Members

  data Docs : Type 0 where
    nil : Docs
    cons : Doc → Docs → Docs

abbrev has : Members → String → Bool
has end name = false
has (member k v ms) name = if k == name then true else has ms name

abbrev look : Members → String → Doc
look end name = number (pos 0)
look (member k v ms) name = if k == name then v else look ms name

abbrev to_list : Docs → List Doc
to_list nil = []
to_list (cons d ds) = d ∷ to_list ds

abbrev has_doc : Doc → String → Option Bool
has_doc (object ms) name = some (has ms name)
has_doc _ name = none

abbrev look_doc : Doc → String → Doc
look_doc (object ms) name = look ms name
look_doc d name = d

abbrev doc_array : Doc → Option (List Doc)
doc_array (array ds) = some (to_list ds)
doc_array _ = none

abbrev doc_object : Doc → Bool
doc_object (object ms) = true
doc_object _ = false

abbrev doc_uint : Doc → Option ℕ
doc_uint (number (pos n)) = some n
doc_uint _ = none

abbrev doc_int : Doc → Option ℤ
doc_int (number z) = some z
doc_int _ = none

abbrev doc_string : Doc → Option String
doc_string (text_of s) = some s
doc_string _ = none

abbrev json : Json ℤ
json = record {
  Value = Doc;
  has_member = has_doc;
  at = look_doc;
  get_array = doc_array;
  is_object = doc_object;
  get_uint = doc_uint;
  get_int = doc_int;
  get_float = doc_int;
  get_string = doc_string;
}

-- A number for each of the two addresses.
abbrev number_of : String → ℕ
number_of ip = length (codes ip)

abbrev far_lidar : Doc
far_lidar =
    object (member "ip" (text_of "192.168.1.12") (member "blind_spot_set" (number (pos 200)) end))

abbrev near_lidar : Doc
near_lidar = object (
    member "ip" (text_of "192.168.1.3") (
      member "pcl_data_type" (number (pos 2))
        (member "extrinsic_parameter" (object (member "x" (number (negsuc 24)) end)) end)))

abbrev user_file : Doc
user_file = object (
    member "lidar_summary_info" (object (member "lidar_type" (number (pos 8)) end))
      (member "lidar_configs" (array (cons near_lidar (cons far_lidar nil))) end))

abbrev no_turn : ℤ → ConfigExtrinsics ℤ
no_turn x = record { roll = pos 0; pitch = pos 0; yaw = pos 0; x = x; y = pos 0; z = pos 0 }

abbrev near_config : ParsedConfig ℤ
near_config = record {
  livox_config = record {
    handle = 11;
    pcl_data_type = pos 2;
    pattern_mode = negsuc 0;
    blind_spot_set = negsuc 0;
    dual_emit_en = negsuc 0;
    set_bits = 0;
  };
  extrinsic_param = no_turn (negsuc 24);
}

-- The blind spot 200 has become -56.
abbrev far_config : ParsedConfig ℤ
far_config = record {
  livox_config = record {
    handle = 12;
    pcl_data_type = negsuc 0;
    pattern_mode = negsuc 0;
    blind_spot_set = negsuc 55;
    dual_emit_en = negsuc 0;
    set_bits = 0;
  };
  extrinsic_param = no_turn (pos 0);
}

blind_spot_set_lem_example : far_config.livox_config.blind_spot_set ≡ negsuc 55
unfolding parse_user_config
blind_spot_set_lem_example =
    blind_spot_set_lem json number_of far_lidar far_config 200 refl refl refl (omega arith)

abbrev fresh_lds : Lds ℤ
fresh_lds = record {
  lidars = replicate 32 zero_device;
  pcd_semaphore = 0;
  imu_semaphore = 0;
  cache_index = new_cache_index;
  publish_freq = pos 10000;
  request_exit = false;
}

abbrev unstarted : LdsLidar ℤ
unstarted = record {
  lds = fresh_lds;
  lidar_type = 0;
  is_initialized = false;
  pub_handler = record {
    publish_interval = 100000000;
    publish_interval_tolerance = 100000000;
    publish_interval_ms = 100;
    last_pub_time = none;
    lidar_process_handlers = [];
    lidar_extrinsics = [];
    is_timestamp_sync = false;
  };
  services = record {
    sdk_running = false;
    info_change_callback = false;
    points_callback = false;
    imu_callback = false;
    lidar_listen_id = 0;
    point_process_thread = false;
    is_quit = false;
    files = 0;
  };
}

abbrev outside : Outside Doc
outside = record {
  summary_file = parsed user_file;
  user_file = parsed user_file;
  sdk_inits = true;
  listen_id = 1;
}

abbrev configs : List (ParsedConfig ℤ)
configs = near_config ∷ far_config ∷ []

init_lds_lidar-HasDevice_example :
    (s' : LdsLidar ℤ) × (init_lds_lidar json number_of (λ z. z) pos_part outside unstarted
      ≡ some (true, s'))
    × (s'.is_initialized ≡ true)
    × ((k : ℕ) (c : ParsedConfig ℤ)
        → get_elem? configs k ≡ some c
        → HasDevice (λ z. z) k c s' × (c.livox_config.set_bits ≡ 0))
unfolding new_lds zero_device new_cache_index parse_summary_info is_livox_lidar and_bits parse
init_lds_lidar-HasDevice_example =
    init_lds_lidar-HasDevice json number_of (λ z. z) pos_part outside unstarted (pos 10000) 8 true
      configs 1 refl refl refl refl refl refl (omega arith) ((λ e. cc, tt), (tt, tt))

init_lds_lidar-handshake_example :
    (s' : LdsLidar ℤ) × (l : Lds ℤ) × (device : LidarDevice ℤ) × (init_lds_lidar json number_of
        (λ z. z)
        pos_part
        outside
        unstarted
      ≡ some (true, s'))
    × (handshake (blind_spot ∷ []) 12 s'.lds ≡ some l)
    × (get_elem? l.lidars 1 ≡ some device)
    × (device.connect_state ≡ sampling)
unfolding new_lds zero_device new_cache_index parse_summary_info is_livox_lidar and_bits parse
    firt_version_ws.Livox.Settings.value_of
init_lds_lidar-handshake_example =
    init_lds_lidar-handshake json number_of (λ z. z) pos_part outside unstarted (pos 10000) 8 true
      configs 1 refl refl refl refl refl refl (omega arith) ((λ e. cc, tt), (tt, tt)) 1 far_config
      (blind_spot ∷ []) blind_spot refl refl refl
