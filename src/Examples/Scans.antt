-- ===== src/Examples/Scans.antt =====
-- The odometry node's buffers and handlers at concrete inputs. Times are thousandths of a second.
use firt_version_ws.Prelude.{
  ℕ, ◌*◌, ◌<◌, true, false, ◌≡◌, refl, List, [], ◌∷◌, arith, length, ℤ, pos, map, Option, some,
  none, ◌⊎◌,
}
use firt_version_ws.Platform.Millis.{millis}
use firt_version_ws.FastLio.Sync.{
  ImuReading, MeasureGroup, Scan, Buffers, SyncEvent, standard_scan, livox_scan, imu_message, timer,
  loops_back, livox_pcl_cbk, sync_packages, sync_run,
}
use firt_version_ws.Livox.Messages.{CustomMsg, CustomPoint}
use firt_version_ws.FastLio.Sync.{tail}
use firt_version_ws.FastLio.Preprocess.{PointType, Preprocess, point_of, avia_handler}
use firt_version_ws.FastLio.Preprocess.Laws.{avia_handler_lem}
use firt_version_ws.FastLio.Clouds.{CloudPoint, default_handler, mid360_handler}
use firt_version_ws.FastLio.Clouds.Laws.{without_time, later_points}
use firt_version_ws.FastLio.Clouds.Reads.{Below, Exceeds, mid360_handler_lem}
use firt_version_ws.FastLio.Split.{IsOrder, Splits, sync_packages-Splits}
use firt_version_ws.FastLio.Stream.{Moves, sync_run-Moves}
use firt_version_ws.FastLio.LoopBack.{loop_back}

pub millis-IsOrder : IsOrder ℤ
millis-IsOrder = record {
  asymmetric = λ a b h. ground (arith, h);
  between = λ a b c h k. ground (arith, h, k);
}

abbrev reading_at : ℕ → ImuReading ℤ
reading_at t = record { stamp = pos t; reading = pos 1 }

-- Two points, the last one 100 ms after the begin.
abbrev scan : Scan ℤ
scan = pos 0 ∷ pos 100000 ∷ []

abbrev no_group : MeasureGroup ℤ
no_group = record { lidar_beg_time = pos 0; lidar_end_time = pos 0; lidar = []; imu = [] }

abbrev buffered : Buffers ℤ
buffered = record {
  time_sync_en = false;
  time_diff_lidar_to_imu = pos 0;
  is_first_lidar = false;
  last_timestamp_lidar = pos 1000;
  last_timestamp_imu = pos 1150;
  timediff_lidar_wrt_imu = pos 0;
  timediff_set_flg = false;
  lidar_buffer = scan ∷ [];
  time_buffer = pos 1000 ∷ [];
  imu_buffer = reading_at 1050 ∷ reading_at 1150 ∷ [];
  lidar_pushed = false;
  lidar_mean_scantime = pos 0;
  scan_num = 0;
  lidar_end_time = pos 0;
  meas = no_group;
}

-- The reading after the end is left.
abbrev handed_on : Buffers ℤ
handed_on = record buffered {
  lidar_buffer = [];
  time_buffer = [];
  imu_buffer = reading_at 1150 ∷ [];
  lidar_mean_scantime = pos 100;
  scan_num = 1;
  lidar_end_time = pos 1100;
  meas = record {
    lidar_beg_time = pos 1000;
    lidar_end_time = pos 1100;
    lidar = scan;
    imu = reading_at 1050 ∷ [];
  };
}

sync_packages-Splits_example : Splits buffered handed_on
unfolding sync_packages
sync_packages-Splits_example =
    sync_packages-Splits millis-IsOrder (λ n. pos (n * 1000)) buffered handed_on refl
      (((refl, tt)), (tt, tt))

abbrev events : List (SyncEvent ℤ)
events = livox_scan (pos 1100) scan ∷ timer ∷ imu_message (reading_at 1250) ∷ timer ∷ []

sync_run-Moves_example :
    Moves buffered
      ((pos 1100, scan) ∷ [])
      (sync_run (λ t. t) (λ t. t) (λ n. pos (n * 1000)) events buffered)
unfolding firt_version_ws.FastLio.Sync.sync_step
sync_run-Moves_example =
    sync_run-Moves (λ t. t) (λ t. t) (λ n. pos (n * 1000)) events buffered
      (record { as_many = refl; taken_up = λ e. cc }) (refl, tt)

-- A scan from before: it will get the time 1000.
loop_back_example :
    let b1 = livox_pcl_cbk (pos 500) scan buffered in
    let b2 = (sync_run (λ t. t) (λ t. t) (λ n. pos (n * 1000)) events b1).1 in
    (length b2.lidar_buffer < length b2.time_buffer)
    × ((b3 : Buffers ℤ)
        → buffered.lidar_pushed ≡ false
        → sync_packages (λ n. pos (n * 1000)) b1 ≡ (true, b3)
        → (b3.meas.lidar ≡ scan) × (b3.meas.lidar_beg_time ≡ pos 1000))
unfolding loops_back
loop_back_example =
    loop_back (λ t. t) (λ t. t) (λ n. pos (n * 1000)) (pos 500) (pos 1000) [] scan buffered events
      refl refl

-- A point on the x axis.
abbrev point_at : ℕ → ℕ → ℕ → CustomPoint ℤ
point_at line x tag = record {
  offset_time = 1000;
  x = pos x;
  y = pos 0;
  z = pos 0;
  reflectivity = 9;
  tag = tag;
  line = line;
}

abbrev cloud_at : ℕ → ℕ → CloudPoint ℤ
cloud_at line x = record { x = pos x; y = pos 0; z = pos 0; intensity = pos 9; line = line }

abbrev points : List (CustomPoint ℤ)
points =
    point_at 0 1000 0x00
    ∷ point_at 1 2000 0x00
    ∷ point_at 2 3000 0x00
    ∷ point_at 3 4000 0x20
    ∷ point_at 1 100 0x10
    ∷ point_at 5 6000 0x00
    ∷ point_at 1 7000 0x10
    ∷ []

-- Every second point of the accepted ones, half a metre around left out.
abbrev pub preprocess : Preprocess ℤ
preprocess = record {
  feature_enabled = false;
  lidar_type = 1;
  blind = pos 500;
  point_filter_num = 2;
  n_scans = 4;
  scan_rate = 10;
}

abbrev message : CustomMsg ℤ
message = record { stamp = 0; timebase = 0; point_num = 7; lidar_id = 0; points = points }

abbrev avia_features : Preprocess ℤ → CustomMsg ℤ → Option (List (PointType ℤ))
avia_features s msg = none

-- Of the four points that are left the second and the fourth.
avia_handler_lem_example :
    let f : ℕ → ℤ = λ n. pos (n * 1000) in
    avia_handler f avia_features preprocess message
    ≡ some (point_of f (point_at 2 3000 0x00) ∷ point_of f (point_at 1 7000 0x10) ∷ [])
unfolding point_of
avia_handler_lem_example =
    avia_handler_lem (λ n. pos (n * 1000)) preprocess (omega arith) avia_features message refl refl

abbrev cloud : List (CloudPoint ℤ)
cloud = cloud_at 0 1000 ∷ cloud_at 1 2000 ∷ cloud_at 0 3000 ∷ cloud_at 0 100 ∷ cloud_at 1 800 ∷ []

mid360_handler_lem_example :
    (Below 4 cloud
      × (surf : List (PointType ℤ)) × (mid360_handler
            (λ y x. y)
            (λ n. pos (n * 1000))
            preprocess
            cloud
          ≡ some surf)
      × (map without_time surf ≡ default_handler preprocess (later_points [] cloud)))
    ⊎ (Exceeds 4 cloud × (mid360_handler (λ y x. y) (λ n. pos (n * 1000)) preprocess cloud ≡ none))
mid360_handler_lem_example = mid360_handler_lem (λ y x. y) (λ n. pos (n * 1000)) preprocess cloud
