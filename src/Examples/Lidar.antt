-- ===== src/Examples/Lidar.antt =====
-- The lidar driver at concrete inputs.
use firt_version_ws.Prelude.{
  replicate, get_elem?, ℕ, ◌+◌, ◌<◌, true, false, ◌≡◌, refl, none, some, List, [], ◌∷◌, arith, ℤ,
  pos, pos_part, map, length, ◌>>=◌, inl,
}
use firt_version_ws.Platform.Millis.{millis}
use firt_version_ws.Pointcl.Cloud.{custom_msg_callback, publish_filtered, apply_filters}
use firt_version_ws.Examples.Poles.{simple}
use firt_version_ws.Livox.Data.{PointXyzlt, PointPacket, StoragePacket}
use firt_version_ws.Livox.Ldq.{LidarDataQueue, null, live, init_queue, queue_size_for}
use firt_version_ws.Livox.Ldq.Queue.{Op, push, pop, queue_run}
use firt_version_ws.Livox.Ldq.Refine.{Holds, packet_of}
use firt_version_ws.Livox.Cache.{
  generate_index_key, CacheIndex, new_cache_index, get_index, get_free_index,
}
use firt_version_ws.Livox.Cache.Laws.{allocate, release, cache_run, cache_run-apart}
use firt_version_ws.Livox.Lds.{
  LidarDevice, Lds, off, sampling, reset_lidar, ensure_queue, push_unless_full,
  on_lidar_point_cloun_cb,
}
use firt_version_ws.Livox.Lds.Laws.{
  unset, holding, packet_ops, storage_run, storage_run-refines, reset_lidar-freed,
}
use firt_version_ws.Livox.Messages.{CustomMsg, custom, custom_of}
use firt_version_ws.Livox.Messages.Laws.{offset_time-roundtrip}
use firt_version_ws.Livox.Pipeline.{seen, cloud_point_of, packet_to_cloud}
use firt_version_ws.Livox.Lddc.{
  Settings, Sent, send_messages, polling_loop, distribute_point_cloud_data,
}
use firt_version_ws.Livox.Lddc.Laws.{polling_loop-stuck, messages_of}
use firt_version_ws.Livox.Lddc.Distribute.{
  AllReady, no_device, device, sent_from, distribute_point_cloud_data-AllReady,
}
use firt_version_ws.Livox.Lddc.Live.{Contains, frame-distribute}
use firt_version_ws.Livox.Settings.{
  Setting, data_type, scan_pattern, blind_spot, dual_emit, value_of,
}
use firt_version_ws.Livox.Settings.Handshake.{handshake, handshake-sampling}
use firt_version_ws.Livox.Frames.{RawPacket, cartesian_high}
use firt_version_ws.Livox.Frames.Timer.{PubHandler, PointFrame}
use firt_version_ws.Livox.Frames.Laws.{points_in_all}
use firt_version_ws.Livox.Frames.Callback.{mid360, point_data}
use firt_version_ws.Livox.Frames.Queue.{PacketStream, PacketEvent, delivered, processed, packet_run}
use firt_version_ws.Livox.Frames.Run.{IsRunning, load, came, packet_run-counted}

-- A lidar at whole numbers of metres, and a packet of two points, 100 ns apart.
abbrev spot : ℕ → ℕ → PointXyzlt ℤ
spot x time = record {
  x = pos x;
  y = pos 0;
  z = pos 0;
  intensity = pos 7;
  tag = 0;
  line = 0;
  offset_time = time;
}

abbrev two_points : PointPacket ℤ
two_points = record {
  handle = 17;
  lidar_type = 8;
  points_num = 2;
  points = spot 1000 5000 ∷ spot 1500 5100 ∷ [];
}

abbrev stored : StoragePacket ℤ
stored = packet_of two_points 5000

abbrev blank : StoragePacket ℤ
blank = record { base_time = 0; points_num = 0; points = [] }

abbrev unset_queue : LidarDataQueue ℤ
unset_queue = record { storage_packet = null; rd_idx = 0; wr_idx = 0; mask = 0; size = 0 }

abbrev lidar : LidarDevice ℤ
lidar = record {
  lidar_type = 8;
  handle = 17;
  data_src = 0;
  connect_state = sampling;
  packets = unset_queue;
  imu_data = [];
  livox_config = record {
    handle = 17;
    pcl_data_type = pos 1;
    pattern_mode = pos 0;
    blind_spot_set = pos 0;
    dual_emit_en = pos 0;
    set_bits = 0;
  };
}

abbrev pub driver : Lds ℤ
driver = record {
  lidars = lidar ∷ [];
  pcd_semaphore = 1;
  imu_semaphore = 0;
  cache_index = record { map_index = (17, 0) ∷ []; index_cache = true ∷ replicate 31 false };
  publish_freq = pos 10000;
  request_exit = false;
}

abbrev pub settings : ℕ → Settings
settings format = record { transfer_format = format; output_type = 0 }

-- Three packets for a queue of size 2, and three pops.
abbrev ops : List (Op (PointPacket ℤ × ℕ))
ops =
    push (two_points, 5000)
    ∷ push (two_points, 6000)
    ∷ push (two_points, 7000)
    ∷ pop
    ∷ pop
    ∷ pop
    ∷ []

ops-drop :
    (queue_run 2 (packet_ops ops) []).0
    ≡ some (packet_of two_points 5000) ∷ some (packet_of two_points 6000) ∷ none ∷ []
unfolding packet_ops queue_run
ops-drop = refl

storage_run-refines_example :
    (q' : LidarDataQueue ℤ) × ((do fresh ← init_queue blank 2 unset_queue; storage_run ops fresh)
      ≡ some ((queue_run (queue_size_for 2) (packet_ops ops) []).0, q'))
storage_run-refines_example =
    storage_run-refines blank 2 unset_queue ops (omega arith) refl (refl, (refl, (refl, tt)))

cache_run-apart_example : (◌≡◌ {A = ℕ} 18 18) × (1 < 32)
unfolding cache_run get_index get_free_index new_cache_index firt_version_ws.Livox.Cache.reset_index
    generate_index_key firt_version_ws.Livox.Cache.first_free firt_version_ws.Livox.Cache.place_for
cache_run-apart_example =
    cache_run-apart (allocate 17 ∷ allocate 18 ∷ release 17 ∷ []) 18 18 1 refl refl

reset_lidar-freed_example :
    (device' : LidarDevice ℤ) × (reset_lidar 0
        (record lidar { packets = record unset_queue { storage_packet = live (blank ∷ []) } })
      ≡ some device')
    × (reset_lidar 0 device' ≡ none)
    × ((freq : ℤ) (d : PointPacket ℤ)
        → (do q ← ensure_queue pos_part blank freq device'.packets; push_unless_full d 5000 q)
          ≡ none)
reset_lidar-freed_example =
    reset_lidar-freed pos_part blank 0 0 5000
      (record lidar { packets = record unset_queue { storage_packet = live (blank ∷ []) } })
      (blank ∷ []) refl

offset_time-roundtrip_example :
    (message : CustomMsg ℤ) × (custom_of pos_part pos lidar stored ≡ some (custom message ∷ []))
    × (map (λ q. message.timebase + q.offset_time) message.points ≡ 5000 ∷ 5100 ∷ [])
offset_time-roundtrip_example =
    offset_time-roundtrip pos_part pos lidar stored refl (omega arith) (omega arith)
      ((omega arith, omega arith), ((omega arith, omega arith), tt))

packet_to_cloud_example :
    (message : CustomMsg ℤ) × (custom_of pos_part pos lidar stored ≡ some (custom message ∷ []))
    × (custom_msg_callback (seen pos message)
        ≡ some (publish_filtered (apply_filters (map (cloud_point_of pos pos_part) stored.points))))
packet_to_cloud_example = packet_to_cloud pos pos_part pos lidar stored refl (omega arith)

polling_loop-stuck_example :
    polling_loop pos_part pos (settings 2) false 0 lidar 1000 (record unset_queue { wr_idx = 1 })
    ≡ none
unfolding firt_version_ws.Livox.Ldq.queue_is_empty
polling_loop-stuck_example =
    polling_loop-stuck blank pos_part pos (settings 2) 0 lidar (record unset_queue { wr_idx = 1 })
      (omega arith) refl 1000

-- A queue of size 2 that holds a packet.
abbrev busy_queue : LidarDataQueue ℤ
busy_queue = record {
  storage_packet = live (stored ∷ blank ∷ []);
  rd_idx = 0;
  wr_idx = 1;
  mask = 1;
  size = 2;
}

busy_queue-Holds : Holds blank busy_queue (stored ∷ [])
busy_queue-Holds = record {
  slots = stored ∷ blank ∷ [];
  storage = refl;
  is_size = record { exponent = 1; power = refl; small = omega arith };
  mask = refl;
  room = refl;
  read_in = omega arith;
  write_in = omega arith;
  fits = omega arith;
  contents = refl;
  whole = (refl, tt);
}

abbrev busy_driver : Lds ℤ
busy_driver = record driver { lidars = record lidar { packets = busy_queue } ∷ [] }

waiting_driver : AllReady blank driver.lidars ([] ∷ [])
waiting_driver = device (unset refl) no_device

distribute_point_cloud_data-AllReady_example :
    (s' : Lds ℤ) × (distribute_point_cloud_data pos_part pos (settings 1) 2 busy_driver
      ≡ some (
          some (
            sent_from blank pos_part pos (settings 1) 0 busy_driver.lidars ((stored ∷ []) ∷ []),
            s',
          )))
    × (s'.pcd_semaphore ≡ 0)
    × AllReady blank s'.lidars ([] ∷ [])
distribute_point_cloud_data-AllReady_example =
    distribute_point_cloud_data-AllReady blank pos_part pos (settings 1) 2 0 busy_driver
      ((stored ∷ []) ∷ []) (omega arith) (omega arith) refl refl
      (device (holding busy_queue-Holds) no_device)

frame-distribute_example :
    (s1 : Lds ℤ) × (sent : Sent ℤ) × (s2 : Lds ℤ) × (on_lidar_point_cloun_cb pos_part blank
        ((5000, two_points) ∷ [])
        driver
      ≡ some s1)
    × (distribute_point_cloud_data pos_part pos (settings 1) 2 s1 ≡ some (some (sent, s2)))
    × Contains sent
        (send_messages (settings 1) 0 (messages_of blank pos_part pos (settings 1) lidar stored))
unfolding get_index generate_index_key
frame-distribute_example =
    frame-distribute pos_part blank pos_part pos (settings 1) 2 0 5000 two_points driver lidar
      ([] ∷ []) [] (omega arith) (omega arith) refl waiting_driver refl refl refl refl (inl refl)
      refl

-- A packet of one point, of 1000 mm on each axis.
abbrev raw : RawPacket ℤ
raw = record {
  lidar_type = 8;
  handle = 17;
  extrinsic_enable = false;
  point_num = 1;
  line_num = 4;
  time_stamp = 100000000;
  point_interval = 5000;
  raw_data = cartesian_high (
      record { x = pos 1000000; y = pos 1000000; z = pos 1000000; reflectivity = pos 7; tag = 0 }
      ∷ []);
}

abbrev gathering : PubHandler ℤ
gathering = record {
  publish_interval = 100000000;
  publish_interval_tolerance = 0;
  publish_interval_ms = 100;
  last_pub_time = none;
  lidar_process_handlers = [];
  lidar_extrinsics = [];
  is_timestamp_sync = true;
}

abbrev stream : PacketStream ℤ
stream = record { handler = gathering; raw_packet_queue = raw ∷ [] }

-- A packet of one point is queued behind another, and both are taken out.
abbrev packet_events : List (PacketEvent ℤ)
packet_events =
    delivered 17 mid360
      (record {
        time_type = 1;
        timestamp = 100000000;
        dot_num = 1;
        time_interval = 10;
        payload = point_data raw.raw_data;
      })
      0
    ∷ processed 0
    ∷ processed 0
    ∷ processed 0
    ∷ []

packet_run-counted_example :
    (frames : List (PointFrame ℤ)) × (s' : PacketStream ℤ) × (packet_run packet_events stream
      ≡ some (frames, s'))
    × IsRunning (17 ∷ []) s'
    × ((id : ℕ)
        → length (points_in_all id frames) + load id s' ≡ load id stream + came id packet_events)
packet_run-counted_example =
    packet_run-counted (17 ∷ []) (omega arith) packet_events stream
      (record {
        interval = omega arith;
        ascending = tt;
        ids = λ id h. refl;
        queue = ((refl, omega arith, refl), tt);
      })
      (((omega arith, omega arith), refl), (tt, (tt, (tt, tt))))

-- The four answers, in another order than the requests.
abbrev acks : List Setting
acks = dual_emit ∷ data_type ∷ blind_spot ∷ scan_pattern ∷ []

-- A driver whose lidar does not sample yet.
abbrev starting : Lds ℤ
starting = record driver { lidars = record lidar { connect_state = off } ∷ [] }

handshake-sampling_example :
    (s' : Lds ℤ) × (device' : LidarDevice ℤ) × (handshake acks 17 starting ≡ some s')
    × (get_elem? s'.lidars 0 ≡ some device')
    × (device'.connect_state ≡ sampling)
unfolding value_of get_index generate_index_key
handshake-sampling_example =
    handshake-sampling acks 17 0 (record lidar { connect_state = off }) starting data_type refl refl
      refl refl
