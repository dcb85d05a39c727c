-- ===== src/FastLio/Sync.antt =====
-- laserMapping.cpp: the buffers of scans and IMU readings, which the callbacks fill, and sync_packages(),
-- which takes a scan with the readings up to its end out of them.
use firt_version_ws.Prelude.{
  is_empty, ℕ, ◌+◌, Bool, true, false, not, ◌&&◌, ◌||◌, if◌then◌else◌, List, [], ◌∷◌, ◌++◌, last_or,
}
use firt_version_ws.Platform.{Platform, ◌⊕◌, ◌⊖◌, ◌⊗◌, ◌⊘◌, dec, lt}

-- A scan as p_pre->process makes it: the curvature of its points, their time in ms after its begin.
abbrev pub Scan : Type 0 → Type 0
Scan R = List R

-- The time stamp of an IMU reading, with what else it says.
pub record ImuReading (R : Type 0) : Type 0 where
  pub stamp : R
  pub reading : R

-- MeasureGroup
pub record MeasureGroup (R : Type 0) : Type 0 where
  pub lidar_beg_time : R
  pub lidar_end_time : R
  pub lidar : Scan R
  pub imu : List (ImuReading R)

-- The variables of the file that the callbacks and sync_packages() share, and `meas` of the node's
-- timer, without the counters of the log.
pub record Buffers (R : Type 0) : Type 0 where
  pub time_sync_en : Bool
  pub time_diff_lidar_to_imu : R
  pub is_first_lidar : Bool
  pub last_timestamp_lidar : R
  pub last_timestamp_imu : R
  pub timediff_lidar_wrt_imu : R
  pub timediff_set_flg : Bool
  pub lidar_buffer : List (Scan R)
  pub time_buffer : List R
  pub imu_buffer : List (ImuReading R)
  pub lidar_pushed : Bool
  pub lidar_mean_scantime : R
  pub scan_num : ℕ
  pub lidar_end_time : R
  pub meas : MeasureGroup R

abbrev pub tail {ℓ} : {A : Type ℓ} → List A → List A
tail [] = []
tail (x ∷ xs) = xs

-- front(), which is undefined on an empty deque; `otherwise` stands for that.
abbrev pub front_or {ℓ} : {A : Type ℓ} → A → List A → A
front_or otherwise [] = otherwise
front_or otherwise (x ∷ xs) = x

abbrev pub front_stamp : {R : Type 0} → R → List (ImuReading R) → R
front_stamp otherwise [] = otherwise
front_stamp otherwise (m ∷ ms) = m.stamp

module _ {R : Type 0} ⦃p : Platform R⦄ where
  -- The test that the time has gone back.
  unfoldable pub loops_back : R → Buffers R → Bool
  loops_back cur_time b = not b.is_first_lidar && lt cur_time b.last_timestamp_lidar

  -- standard_pcl_cbk, with the scan that is made of the message.
  unfoldable pub standard_pcl_cbk : R → Scan R → Buffers R → Buffers R
  unfolding loops_back
  standard_pcl_cbk cur_time ptr b =
      let kept = if loops_back cur_time b then [] else b.lidar_buffer in
      record b {
        is_first_lidar = false;
        lidar_buffer = kept ++ (ptr ∷ []);
        time_buffer = b.time_buffer ++ (cur_time ∷ []);
        last_timestamp_lidar = cur_time;
      }

  -- Whether livox_pcl_cbk sets the difference of the clocks.
  unfoldable pub sets_timediff : R → Buffers R → Bool
  sets_timediff cur_time b =
      b.time_sync_en
      && not b.timediff_set_flg
      && lt (dec 1 0) (p.abs (cur_time ⊖ b.last_timestamp_imu))
      && not (is_empty b.imu_buffer)

  unfoldable pub livox_pcl_cbk : R → Scan R → Buffers R → Buffers R
  unfolding loops_back sets_timediff
  livox_pcl_cbk cur_time ptr b =
      let kept = if loops_back cur_time b then [] else b.lidar_buffer in
      let now = sets_timediff cur_time b in
      record b {
        is_first_lidar = false;
        last_timestamp_lidar = cur_time;
        timediff_set_flg = b.timediff_set_flg || now;
        timediff_lidar_wrt_imu =
            if now then cur_time ⊕ dec 1 1 ⊖ b.last_timestamp_imu else b.timediff_lidar_wrt_imu;
        lidar_buffer = kept ++ (ptr ∷ []);
        time_buffer = b.time_buffer ++ (cur_time ∷ []);
      }

  -- The stamp that imu_cbk gives to a reading. `as_stamp` is get_time_sec(get_ros_time(…)), and
  -- `as_nanoseconds` is get_time_sec(rclcpp::Time(…)), whose constructor from one number takes it as
  -- whole nanoseconds.
  unfoldable pub imu_stamp : (R → R) → (R → R) → R → Buffers R → R
  imu_stamp as_stamp as_nanoseconds stamp b =
      if lt (dec 1 1) (p.abs b.timediff_lidar_wrt_imu) && b.time_sync_en
      then as_nanoseconds (b.timediff_lidar_wrt_imu ⊕ stamp)
      else as_stamp (stamp ⊖ b.time_diff_lidar_to_imu)

  unfoldable pub imu_cbk : (R → R) → (R → R) → ImuReading R → Buffers R → Buffers R
  unfolding imu_stamp
  imu_cbk as_stamp as_nanoseconds msg_in b =
      let timestamp = imu_stamp as_stamp as_nanoseconds msg_in.stamp b in
      let kept = if lt timestamp b.last_timestamp_imu then [] else b.imu_buffer in
      record b {
        last_timestamp_imu = timestamp;
        imu_buffer = kept ++ (record msg_in { stamp = timestamp } ∷ []);
      }

  -- `to_double` is the value of a count.
  unfoldable pub push_scan : (ℕ → R) → Scan R → R → Buffers R → Buffers R
  push_scan to_double lidar beg_time b =
      let length_of = λ (c : R). c ⊘ dec 1000 0 in
      let set = λ (num : ℕ) (mean end_time : R).
        let read : MeasureGroup R = record b.meas {
          lidar = lidar;
          lidar_beg_time = beg_time;
          lidar_end_time = end_time;
        } in
        record b {
          scan_num = num;
          lidar_mean_scantime = mean;
          lidar_end_time = end_time;
          meas = read;
          lidar_pushed = true;
        } in
      elim lidar [
        | [] ↦ set b.scan_num b.lidar_mean_scantime (beg_time ⊕ b.lidar_mean_scantime)
        | q ∷ [] ↦ set b.scan_num b.lidar_mean_scantime (beg_time ⊕ b.lidar_mean_scantime)
        | q ∷ r ∷ points ↦
            let last = length_of (last_or r points) in
            if lt last (dec 5 1 ⊗ b.lidar_mean_scantime)
            then set b.scan_num b.lidar_mean_scantime (beg_time ⊕ b.lidar_mean_scantime)
            else set (b.scan_num + 1)
                (b.lidar_mean_scantime
                  ⊕ (last ⊖ b.lidar_mean_scantime) ⊘ to_double (b.scan_num + 1))
                (beg_time ⊕ last)
      ]

  -- The while loop of sync_packages(): the readings that are taken, and those that are left.
  unfoldable pub take_imu : R → R → List (ImuReading R) → List (ImuReading R) × List (ImuReading R)
  take_imu imu_time end_time [] = ([], [])
  take_imu imu_time end_time (m ∷ ms) =
      let rest = take_imu m.stamp end_time ms in
      if not (lt imu_time end_time)
      then ([], m ∷ ms)
      else if lt end_time m.stamp
      then ([], m ∷ ms)
      else (m ∷ rest.0, rest.1)

  -- What follows the scan's end in sync_packages().
  unfoldable pub take_measures : Buffers R → Bool × Buffers R
  unfolding take_imu
  take_measures b =
      if lt b.last_timestamp_imu b.lidar_end_time
      then (false, b)
      else (let taken =
            take_imu (front_stamp b.last_timestamp_imu b.imu_buffer) b.lidar_end_time
              b.imu_buffer in
          (
            true,
            record b {
              meas = record b.meas { imu = taken.0 };
              imu_buffer = taken.1;
              lidar_buffer = tail b.lidar_buffer;
              time_buffer = tail b.time_buffer;
              lidar_pushed = false;
            },
          ))

  unfoldable pub sync_packages : (ℕ → R) → Buffers R → Bool × Buffers R
  unfolding push_scan take_measures
  sync_packages to_double b =
      if is_empty b.lidar_buffer || is_empty b.imu_buffer
      then (false, b)
      else if b.lidar_pushed
      then take_measures b
      else take_measures (
          push_scan to_double (front_or [] b.lidar_buffer) (front_or b.lidar_end_time b.time_buffer)
            b)

-- What happens to the buffers: a message, or a call of sync_packages() by the node's timer.
pub data SyncEvent (R : Type 0) : Type 0 where
  standard_scan livox_scan : R → Scan R → SyncEvent R
  imu_message : ImuReading R → SyncEvent R
  timer : SyncEvent R

module _ {R : Type 0} ⦃p : Platform R⦄ (as_stamp as_nanoseconds : R → R) (to_double : ℕ → R) where
  -- The group that the timer's call hands on, if it does.
  unfoldable pub sync_step : SyncEvent R → Buffers R → List (MeasureGroup R) × Buffers R
  unfolding standard_pcl_cbk livox_pcl_cbk imu_cbk sync_packages
  sync_step (standard_scan cur_time ptr) b = ([], standard_pcl_cbk cur_time ptr b)
  sync_step (livox_scan cur_time ptr) b = ([], livox_pcl_cbk cur_time ptr b)
  sync_step (imu_message msg) b = ([], imu_cbk as_stamp as_nanoseconds msg b)
  sync_step timer b =
      let (done, b') = sync_packages to_double b in (if done then b'.meas ∷ [] else [], b')

  unfoldable pub sync_run : List (SyncEvent R) → Buffers R → List (MeasureGroup R) × Buffers R
  unfolding sync_step
  sync_run [] b = ([], b)
  sync_run (e ∷ events) b =
      let (groups, b') = sync_step e b in
      let (later, b'') = sync_run events b' in (groups ++ later, b'')
