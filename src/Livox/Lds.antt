-- ===== src/Livox/Lds.antt =====
-- lds.cpp with comm/comm.cpp, comm/semaphore.cpp and comm/lidar_imu_data_queue.cpp: the 32 devices,
-- where their packets and IMU readings are stored, and the two semaphores.
pub mod Laws
use firt_version_ws.Prelude.{
  ℕ, zero, suc, ◌+◌, ◌-◌, Bool, true, false, not, ◌&&◌, if◌then◌else◌, Option, none, some, List, [],
  ◌∷◌, ◌++◌, ◌==◌, ltb, ◌>>=◌, get_elem?, set, add32, ℤ,
}
use firt_version_ws.Platform.{Platform, lt, dec}
use firt_version_ws.Livox.Data.{PointPacket, StoragePacket, livox_lidar_type}
use firt_version_ws.Livox.Ldq.{
  LidarDataQueue, Storage, null, live, freed, init_queue, deinit_queue, queue_is_full,
  queue_is_empty, queue_push_any, queue_used_size,
}
use firt_version_ws.Livox.Cache.{CacheIndex, get_index, lvx_get_index}

-- ImuData, as far as it is filled in: the slot is never written.
pub record ImuData (R : Type 0) : Type 0 where
  pub lidar_type : ℕ
  pub handle : ℕ
  pub time_stamp : ℕ
  pub gyro_x : R
  pub gyro_y : R
  pub gyro_z : R
  pub acc_x : R
  pub acc_y : R
  pub acc_z : R

-- LidarConnectState
pub data ConnectState : Type 0 where
  off on config sampling : ConnectState

-- UserLivoxLidarConfig without the extrinsic parameters and get_bits; -1 is a setting that is absent.
pub record UserLivoxLidarConfig : Type 0 where
  pub handle : ℕ
  pub pcl_data_type : ℤ
  pub pattern_mode : ℤ
  pub blind_spot_set : ℤ
  pub dual_emit_en : ℤ
  pub set_bits : ℕ

-- The fields of LidarDevice that its code reads.
pub record LidarDevice (R : Type 0) : Type 0 where
  pub lidar_type : ℕ
  pub handle : ℕ
  pub data_src : ℕ
  pub connect_state : ConnectState
  pub packets : LidarDataQueue R
  pub imu_data : List (ImuData R)
  pub livox_config : UserLivoxLidarConfig

-- class Lds. A semaphore is its count.
pub record Lds (R : Type 0) : Type 0 where
  pub lidars : List (LidarDevice R)
  pub pcd_semaphore : ℕ
  pub imu_semaphore : ℕ
  pub cache_index : CacheIndex
  pub publish_freq : R
  pub request_exit : Bool

unfoldable pub semaphore_signal : ℕ → ℕ
semaphore_signal count = count + 1

-- `none`: the caller waits.
unfoldable pub semaphore_wait : ℕ → Option ℕ
semaphore_wait zero = none
semaphore_wait (suc count) = some count

-- `if (semaphore.GetCount() <= 0) semaphore.Signal();`
unfoldable pub wake : ℕ → ℕ
unfolding semaphore_signal
wake count = if count == 0 then semaphore_signal count else count

module _ {R : Type 0} where
  unfoldable pub imu_push : ImuData R → List (ImuData R) → List (ImuData R)
  imu_push d queue = queue ++ (d ∷ [])

  unfoldable pub imu_pop : List (ImuData R) → Option (ImuData R) × List (ImuData R)
  imu_pop [] = (none, [])
  imu_pop (d ∷ queue) = (some d, queue)

  unfoldable pub imu_empty : List (ImuData R) → Bool
  imu_empty [] = true
  imu_empty (d ∷ queue) = false

  unfoldable pub imu_clear : List (ImuData R) → List (ImuData R)
  imu_clear queue = []

  -- `none`: the packet array is deleted twice.
  unfoldable pub reset_lidar : ℕ → LidarDevice R → Option (LidarDevice R)
  unfolding imu_clear
  reset_lidar data_src d = do
    queue ← deinit_queue d.packets
    some (record d {
      packets = queue;
      imu_data = imu_clear d.imu_data;
      data_src = data_src;
      connect_state = off;
    })

  unfoldable pub set_lidar_data_src : ℕ → LidarDevice R → LidarDevice R
  set_lidar_data_src data_src d = record d { data_src = data_src }

  -- The loop of ResetLds.
  unfoldable pub reset_lidars : ℕ → List (LidarDevice R) → Option (List (LidarDevice R))
  unfolding reset_lidar
  reset_lidars data_src [] = some []
  reset_lidars data_src (d ∷ ds) = do
    d' ← reset_lidar data_src d
    ds' ← reset_lidars data_src ds
    some (d' ∷ ds')

  unfoldable pub is_all_queue_empty : List (LidarDevice R) → Bool
  is_all_queue_empty [] = true
  is_all_queue_empty (d ∷ ds) = queue_is_empty d.packets && is_all_queue_empty ds

  unfoldable pub is_all_queue_read_stop : List (LidarDevice R) → Bool
  is_all_queue_read_stop [] = true
  is_all_queue_read_stop (d ∷ ds) = (queue_used_size d.packets == 0) && is_all_queue_read_stop ds

  -- StorageImuData.
  unfoldable pub storage_imu_data : ImuData R → Lds R → Option (Lds R)
  unfolding imu_push imu_empty wake
  storage_imu_data d s =
      if d.lidar_type == livox_lidar_type
      then elim (get_index d.lidar_type d.handle s.cache_index) [
        | none ↦ some s
        | some index ↦ do
          device ← get_elem? s.lidars index
          let queue = imu_push d device.imu_data
          some (record s {
            lidars = set s.lidars index (record device { imu_data = queue });
            imu_semaphore = if imu_empty queue then s.imu_semaphore else wake s.imu_semaphore;
          })
      ]
      else some s

  -- A full queue drops the packet.
  unfoldable pub push_unless_full : PointPacket R → ℕ → LidarDataQueue R → Option (LidarDataQueue R)
  push_unless_full d base_time q = if queue_is_full q then some q else queue_push_any d base_time q

  -- The end of PushLidarData, with the queue before and after the push. Both branches wake the
  -- thread that publishes, the one after a push unless the queue then counts as empty.
  abbrev pub after_push : ℕ → LidarDevice R → LidarDataQueue R → LidarDataQueue R → Lds R → Lds R
  after_push index device queue pushed s = record s {
    lidars = set s.lidars index (record device { packets = pushed });
    pcd_semaphore =
        if not (queue_is_full queue) && queue_is_empty pushed
        then s.pcd_semaphore
        else wake s.pcd_semaphore;
  }

-- `cast` is the conversion of a `double` to uint32_t.
module _ {R : Type 0} ⦃p : Platform R⦄ (cast : R → ℕ) (blank : StoragePacket R) where
  unfoldable pub calculate_packet_queue_size : R → ℕ
  calculate_packet_queue_size publish_freq =
      if lt (dec 10 0) publish_freq then add32 (cast publish_freq) 1 else 10

  -- `if (nullptr == queue->storage_packet) InitQueue(…)`
  unfoldable pub ensure_queue : R → LidarDataQueue R → Option (LidarDataQueue R)
  unfolding calculate_packet_queue_size
  ensure_queue publish_freq q = elim q.storage_packet [
    | null ↦ init_queue blank (calculate_packet_queue_size publish_freq) q
    | _ ↦ some q
  ]

  unfoldable pub push_lidar_data : PointPacket R → ℕ → ℕ → Lds R → Option (Lds R)
  unfolding ensure_queue push_unless_full wake
  push_lidar_data d index base_time s = do
    device ← get_elem? s.lidars index
    queue ← ensure_queue s.publish_freq device.packets
    pushed ← push_unless_full d base_time queue
    some (after_push index device queue pushed s)

  -- One round of the loop of StoragePointData.
  unfoldable pub storage_point : PointPacket R → ℕ → Lds R → Option (Lds R)
  unfolding push_lidar_data
  storage_point d base_time s = elim (get_index d.lidar_type d.handle s.cache_index) [
    | none ↦ some s
    | some index ↦ push_lidar_data d index base_time s
  ]

  -- The frame, as the pairs of a base time and a packet below lidar_num.
  unfoldable pub storage_point_data : List (ℕ × PointPacket R) → Lds R → Option (Lds R)
  unfolding storage_point
  storage_point_data [] s = some s
  storage_point_data ((base_time, d) ∷ frame) s = do
    s' ← storage_point d base_time s
    storage_point_data frame s'

  -- One round of the loop of StorageLvxPointData, which gives new lidars an index.
  unfoldable pub storage_lvx_point : PointPacket R → ℕ → Lds R → Option (Lds R)
  unfolding push_lidar_data
  storage_lvx_point d base_time s =
      let (found, cache) = lvx_get_index d.lidar_type d.handle s.cache_index in
      elim found [
        | none ↦ some (record s { cache_index = cache })
        | some index ↦ do
          device ← get_elem? s.lidars index
          push_lidar_data d index base_time (record s {
            cache_index = cache;
            lidars = set s.lidars index (record device { connect_state = sampling });
          })
      ]

  unfoldable pub storage_lvx_point_data : List (ℕ × PointPacket R) → Lds R → Option (Lds R)
  unfolding storage_lvx_point
  storage_lvx_point_data [] s = some s
  storage_lvx_point_data ((base_time, d) ∷ frame) s = do
    s' ← storage_lvx_point d base_time s
    storage_lvx_point_data frame s'

  -- LidarCommonCallback::OnLidarPointClounCb, whose pointers are never null.
  unfoldable pub on_lidar_point_cloun_cb : List (ℕ × PointPacket R) → Lds R → Option (Lds R)
  unfolding storage_point_data
  on_lidar_point_cloun_cb [] s = some s
  on_lidar_point_cloun_cb (packet ∷ frame) s = storage_point_data (packet ∷ frame) s

module _ {R : Type 0} where
  -- LidarCommonCallback::LidarImuDataCallback
  unfoldable pub lidar_imu_data_callback : ImuData R → Lds R → Option (Lds R)
  unfolding storage_imu_data
  lidar_imu_data_callback d s = storage_imu_data d s
