-- ===== src/Livox/Lddc.antt =====
-- lddc.cpp, as built for ROS 2: the loops that take packets and IMU readings out of the devices'
-- queues and publish them. They run on fuel, and no thread stores anything meanwhile.
pub mod Laws
pub mod Distribute
pub mod Live
use firt_version_ws.Prelude.{
  ℕ, zero, suc, ◌+◌, Bool, true, false, ◌&&◌, ◌||◌, not, if◌then◌else◌, Option, none, some, List,
  [], ◌∷◌, ◌++◌, ◌==◌, ◌>>=◌,
}
use firt_version_ws.Livox.Data.{StoragePacket}
use firt_version_ws.Livox.Ldq.{
  LidarDataQueue, Storage, null, live, freed, queue_is_empty, queue_pop, queue_used_size,
}
use firt_version_ws.Livox.Lds.{
  ImuData, LidarDevice, Lds, ConnectState, off, on, config, sampling, imu_pop, imu_empty,
  semaphore_wait,
}
use firt_version_ws.Livox.Messages.{Message, imu, custom_of, cloud_of, init_imu_msg}

-- TransferType
abbrev pub point_cloud_2_msg : ℕ
point_cloud_2_msg = 0

abbrev pub livox_custom_msg : ℕ
livox_custom_msg = 1

abbrev pub pcl_pxyzi_msg : ℕ
pcl_pxyzi_msg = 2

-- kOutputToRos
abbrev pub output_to_ros : ℕ
output_to_ros = 0

-- The settings of Lddc.
pub record Settings : Type 0 where
  pub transfer_format : ℕ
  pub output_type : ℕ

-- A topic is known by the device's index.
abbrev pub Sent : Type 0 → Type 0
Sent R = List (ℕ × Message R)

abbrev pub is_sampling : ConnectState → Bool
is_sampling sampling = true
is_sampling _ = false

module _ {R : Type 0} where
  -- PublishPointcloud2Data, PublishCustomPointData and the end of PublishImuData.
  unfoldable pub send_messages : Settings → ℕ → List (Message R) → Sent R
  send_messages c index [] = []
  send_messages c index (message ∷ messages) =
      let rest = send_messages c index messages in
      if c.output_type == output_to_ros then (index, message) ∷ rest else rest

  -- What is made of the packet that QueuePop left in `pkg`, which has no points if it failed.
  abbrev pub of_popped :
      (StoragePacket R → Option (List (Message R)))
      → Option (StoragePacket R)
      → Option (List (Message R))
  of_popped body none = some []
  of_popped body (some pkg) = body pkg

  -- `while(!QueueIsEmpty(queue))` of the publishing functions. `none`: a fault, or no fuel.
  unfoldable pub publish_loop :
      (StoragePacket R → Option (List (Message R)))
      → Settings
      → ℕ
      → ℕ
      → LidarDataQueue R
      → Option (Sent R × LidarDataQueue R)
  unfolding send_messages
  publish_loop body c index zero q = none
  publish_loop body c index (suc fuel) q = elim (queue_is_empty q) [
    | true ↦ some ([], q)
    | false ↦ do
      popped ← queue_pop q
      messages ← of_popped body popped.0
      rest ← publish_loop body c index fuel popped.1
      some (send_messages c index messages ++ rest.0, rest.1)
  ]

  -- PublishImuData
  unfoldable pub publish_imu_data : Settings → ℕ → List (ImuData R) → Sent R × List (ImuData R)
  unfolding imu_pop init_imu_msg send_messages
  publish_imu_data c index queue =
      let (popped, rest) = imu_pop queue in
      elim popped [
        | none ↦ ([], rest)
        | some d ↦ (send_messages c index (imu (init_imu_msg d) ∷ []), rest)
      ]

  -- PollingLidarImuData
  unfoldable pub polling_lidar_imu_data :
      Settings → Bool → ℕ → ℕ → List (ImuData R) → Option (Sent R × List (ImuData R))
  unfolding imu_empty publish_imu_data
  polling_lidar_imu_data c exit index zero queue = none
  polling_lidar_imu_data c exit index (suc fuel) queue = elim (not exit && not (imu_empty queue)) [
    | false ↦ some ([], queue)
    | true ↦ do
      rest ← polling_lidar_imu_data c exit index fuel (publish_imu_data c index queue).1
      some ((publish_imu_data c index queue).0 ++ rest.0, rest.1)
  ]

module _ {R : Type 0} (to_uint8 : R → ℕ) (to_double : ℕ → R) where
  unfoldable pub publish_pointcloud2 :
      Settings → ℕ → LidarDataQueue R → Option (Sent R × LidarDataQueue R)
  unfolding publish_loop
  publish_pointcloud2 c index q =
      publish_loop (cloud_of to_uint8 to_double) c index (suc (queue_used_size q)) q

  unfoldable pub publish_custom_pointcloud :
      Settings → ℕ → LidarDevice R → LidarDataQueue R → Option (Sent R × LidarDataQueue R)
  unfolding publish_loop
  publish_custom_pointcloud c index lidar q =
      publish_loop (custom_of to_uint8 to_double lidar) c index (suc (queue_used_size q)) q

  -- It logs that the format is not supported, and returns.
  unfoldable pub publish_pcl_msg : LidarDataQueue R → Option (Sent R × LidarDataQueue R)
  publish_pcl_msg q = some ([], q)

  unfoldable pub publish_by_format :
      Settings → ℕ → LidarDevice R → LidarDataQueue R → Option (Sent R × LidarDataQueue R)
  unfolding publish_pointcloud2 publish_custom_pointcloud publish_pcl_msg
  publish_by_format c index lidar q =
      if c.transfer_format == point_cloud_2_msg
      then publish_pointcloud2 c index q
      else if c.transfer_format == livox_custom_msg
      then publish_custom_pointcloud c index lidar q
      else if c.transfer_format == pcl_pxyzi_msg
      then publish_pcl_msg q
      else some ([], q)

  -- The loop of PollingLidarPointCloudData. `exit` is what IsRequestExit returns.
  unfoldable pub polling_loop :
      Settings
      → Bool
      → ℕ
      → LidarDevice R
      → ℕ
      → LidarDataQueue R
      → Option (Sent R × LidarDataQueue R)
  unfolding publish_by_format
  polling_loop c exit index lidar zero q = none
  polling_loop c exit index lidar (suc fuel) q = elim (not exit && not (queue_is_empty q)) [
    | false ↦ some ([], q)
    | true ↦ do
      now ← publish_by_format c index lidar q
      rest ← polling_loop c exit index lidar fuel now.1
      some (now.0 ++ rest.0, rest.1)
  ]

  unfoldable pub polling_lidar_point_cloud_data :
      Settings → Bool → ℕ → ℕ → LidarDevice R → Option (Sent R × LidarDevice R)
  unfolding polling_loop
  polling_lidar_point_cloud_data c exit fuel index lidar = elim lidar.packets.storage_packet [
    | null ↦ some ([], lidar)
    | _ ↦ do
      polled ← polling_loop c exit index lidar fuel lidar.packets
      some (polled.0, record lidar { packets = polled.1 })
  ]

  -- The loop of DistributePointCloudData, from the device at `index` on.
  unfoldable pub distribute_from :
      Settings → Bool → ℕ → ℕ → List (LidarDevice R) → Option (Sent R × List (LidarDevice R))
  unfolding polling_lidar_point_cloud_data
  distribute_from c exit fuel index [] = some ([], [])
  distribute_from c exit fuel index (lidar ∷ lidars) = do
    now ←
        if is_sampling lidar.connect_state
        then polling_lidar_point_cloud_data c exit fuel index lidar
        else some ([], lidar)
    rest ← distribute_from c exit fuel (index + 1) lidars
    some (now.0 ++ rest.0, now.1 ∷ rest.1)

  -- The inner `none`: the thread waits.
  unfoldable pub distribute_point_cloud_data :
      Settings → ℕ → Lds R → Option (Option (Sent R × Lds R))
  unfolding distribute_from semaphore_wait
  distribute_point_cloud_data c fuel s =
      if s.request_exit then some (some ([], s)) else elim (semaphore_wait s.pcd_semaphore) [
        | none ↦ some none
        | some count ↦ do
          sent ← distribute_from c s.request_exit fuel 0 s.lidars
          some (some (sent.0, record s { lidars = sent.1; pcd_semaphore = count }))
      ]

module _ {R : Type 0} where
  -- The loop of DistributeImuData, each device with the fuel that its readings need.
  unfoldable pub distribute_imu_from :
      Settings → Bool → ℕ → ℕ → List (LidarDevice R) → Option (Sent R × List (LidarDevice R))
  unfolding polling_lidar_imu_data
  distribute_imu_from c exit fuel index [] = some ([], [])
  distribute_imu_from c exit fuel index (lidar ∷ lidars) = do
    now ←
        if is_sampling lidar.connect_state
        then polling_lidar_imu_data c exit index fuel lidar.imu_data
        else some ([], lidar.imu_data)
    rest ← distribute_imu_from c exit fuel (index + 1) lidars
    some (now.0 ++ rest.0, record lidar { imu_data = now.1 } ∷ rest.1)

  unfoldable pub distribute_imu_data : Settings → ℕ → Lds R → Option (Option (Sent R × Lds R))
  unfolding distribute_imu_from semaphore_wait
  distribute_imu_data c fuel s =
      if s.request_exit then some (some ([], s)) else elim (semaphore_wait s.imu_semaphore) [
        | none ↦ some none
        | some count ↦ do
          sent ← distribute_imu_from c s.request_exit fuel 0 s.lidars
          some (some (sent.0, record s { lidars = sent.1; imu_semaphore = count }))
      ]
