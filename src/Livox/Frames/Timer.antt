-- ===== src/Livox/Frames/Timer.antt =====
-- PubHandler: which packets go to which handler, and when a frame is published.
use firt_version_ws.Prelude.{
  ℕ, ◌+◌, ◌-◌, ◌/◌, ◌%◌, ◌^◌, Bool, false, not, ◌||◌, if◌then◌else◌, Option, none, some, List, [],
  ◌∷◌, ◌==◌, ltb, leb, ◌>>=◌, length,
}
use firt_version_ws.Platform.{Platform, dec, ◌⊗◌, ◌⊘◌}
use firt_version_ws.Livox.Data.{
  PointXyzlt, PointPacket, livox_lidar_type, max_source_lidar, no_points,
}
use firt_version_ws.Livox.Frames.{RawPacket, ExtParameter}
use firt_version_ws.Livox.Frames.Handler.{
  LidarPubHandler, get_lidar_base_time, get_recent_time_stamp, get_lidar_point_clouds,
  new_lidar_pub_handler, set_lidars_ext_param, point_cloud_process,
}

-- A PointFrame, as the pairs of a base time and a packet below lidar_num.
abbrev pub PointFrame : Type 0 → Type 0
PointFrame R = List (ℕ × PointPacket R)

-- The fields of PubHandler. The handlers are in the order of their ids, as std::map has them.
-- `last_pub_time` is `none` before the first call without time synchronization.
pub record PubHandler (R : Type 0) : Type 0 where
  pub publish_interval : ℕ
  pub publish_interval_tolerance : ℕ
  pub publish_interval_ms : ℕ
  pub last_pub_time : Option ℕ
  pub lidar_process_handlers : List (ℕ × LidarPubHandler R)
  pub lidar_extrinsics : List (ℕ × ExtParameter R)
  pub is_timestamp_sync : Bool

unfoldable pub get_lidar_id : ℕ → ℕ → ℕ
get_lidar_id lidar_type handle = if lidar_type == livox_lidar_type then handle else 0

module _ {A : Type 0} where
  abbrev pub find : ℕ → List (ℕ × A) → Option A
  find id [] = none
  find id ((k, a) ∷ rest) = if id == k then some a else find id rest

  -- operator[] of a map in the order of its keys, and assignment.
  abbrev pub insert : ℕ → A → List (ℕ × A) → List (ℕ × A)
  insert id a [] = (id, a) ∷ []
  insert id a ((k, b) ∷ rest) =
      let later = insert id a rest in
      if id == k
      then (id, a) ∷ rest
      else if ltb id k
      then (id, a) ∷ (k, b) ∷ rest
      else (k, b) ∷ later

module _ {R : Type 0} where
  -- The packet of a frame.
  abbrev pub lidar_point : ℕ → List (PointXyzlt R) → PointPacket R
  lidar_point id points = record {
    handle = id;
    lidar_type = livox_lidar_type;
    points_num = length points % 2 ^ 32;
    points = points;
  }

  -- Whether CheckTimer publishes with time synchronization. `none`: a division by 0.
  unfoldable pub is_frame_end : PubHandler R → LidarPubHandler R → Option Bool
  unfolding get_recent_time_stamp get_lidar_base_time
  is_frame_end s h =
      let recent_time_ms = get_recent_time_stamp h / 1000000 in
      let diff = (get_recent_time_stamp h + 2 ^ 64 - get_lidar_base_time h) % 2 ^ 64 in
      if s.publish_interval_ms == 0
      then none
      else if not (recent_time_ms % s.publish_interval_ms == 0) || (recent_time_ms == 0)
      then some false
      else some (not (ltb diff s.publish_interval_tolerance))

  -- The frame of one lidar that is published, if one is.
  abbrev pub frame_of : ℕ → ℕ → List (PointXyzlt R) → List (PointFrame R)
  frame_of id base_time points =
      if no_points points then [] else ((base_time, lidar_point id points) ∷ []) ∷ []

  -- CheckTimer with time synchronization: the frames that are published.
  unfoldable pub check_timer_sync : ℕ → PubHandler R → Option (List (PointFrame R) × PubHandler R)
  unfolding is_frame_end get_lidar_point_clouds get_lidar_base_time
  check_timer_sync id s = do
    h ← find id s.lidar_process_handlers
    now ← is_frame_end s h
    let (points, h') = get_lidar_point_clouds h
    some (
        if now
        then (
          frame_of id (get_lidar_base_time h) points,
          record s { lidar_process_handlers = insert id h' s.lidar_process_handlers },
        )
        else ([], s))

  -- The loop over the handlers, with `lidar_num` packets in the frame. `none`: a write past the end
  -- of the frame's arrays.
  unfoldable pub collect :
      ℕ → List (ℕ × LidarPubHandler R) → Option (PointFrame R × List (ℕ × LidarPubHandler R))
  unfolding get_lidar_point_clouds get_lidar_base_time
  collect lidar_num [] = some ([], [])
  collect lidar_num ((id, h) ∷ handlers) =
      let (points, h') = get_lidar_point_clouds h in
      if leb max_source_lidar lidar_num then none else do
        rest ← collect (if no_points points then lidar_num else lidar_num + 1) handlers
        some (
          if no_points points
              then rest.0
              else (get_lidar_base_time h, lidar_point id points) ∷ rest.0,
          (id, h') ∷ rest.1,
        )

  -- CheckTimer without it, when the clock shows `now`.
  unfoldable pub check_timer_clock : ℕ → PubHandler R → Option (List (PointFrame R) × PubHandler R)
  unfolding collect
  check_timer_clock now s = elim s.last_pub_time [
    | none ↦ some ([], record s { last_pub_time = some now })
    | some last ↦ if ltb now (last + s.publish_interval) then some ([], s) else do
      collected ← collect 0 s.lidar_process_handlers
      some (
        collected.0 ∷ [],
        record s {
          last_pub_time = some (last + s.publish_interval);
          lidar_process_handlers = collected.1;
        },
      )
  ]

  unfoldable pub check_timer : ℕ → ℕ → PubHandler R → Option (List (PointFrame R) × PubHandler R)
  unfolding check_timer_sync check_timer_clock
  check_timer id now s =
      if s.is_timestamp_sync then check_timer_sync id s else check_timer_clock now s

module _ {R : Type 0} ⦃p : Platform R⦄ where
  -- `cast` converts a double to uint64_t. The subtraction is one of uint64_t.
  unfoldable pub set_point_cloud_config : (R → ℕ) → R → PubHandler R → PubHandler R
  set_point_cloud_config cast publish_freq s =
      let interval = cast (dec 1000000000 0 ⊘ (publish_freq ⊗ dec 10 0) ⊗ dec 10 0) in
      record s {
        publish_interval = interval;
        publish_interval_tolerance = (interval + 2 ^ 64 - 1000000) % 2 ^ 64;
        publish_interval_ms = interval / 1000000;
      }

  unfoldable pub handler_or_new : Option (LidarPubHandler R) → LidarPubHandler R
  unfolding new_lidar_pub_handler
  handler_or_new none = new_lidar_pub_handler
  handler_or_new (some h) = h

  unfoldable pub with_extrinsics : Option (ExtParameter R) → LidarPubHandler R → LidarPubHandler R
  unfolding set_lidars_ext_param
  with_extrinsics none h = h
  with_extrinsics (some param) h = set_lidars_ext_param param h

  -- What follows GetLidarId in RawDataProcess.
  unfoldable pub process_for :
      ℕ → RawPacket R → ℕ → PubHandler R → Option (List (PointFrame R) × PubHandler R)
  unfolding point_cloud_process check_timer handler_or_new with_extrinsics
  process_for id raw_data now s = do
    let found = handler_or_new (find id s.lidar_process_handlers)
    let h = with_extrinsics (find id s.lidar_extrinsics) found
    h' ← point_cloud_process raw_data h
    check_timer id now (record s { lidar_process_handlers = insert id h' s.lidar_process_handlers })

  -- One round of RawDataProcess for a packet of the queue, CheckTimer reading the clock as `now`.
  unfoldable pub raw_data_process :
      RawPacket R → ℕ → PubHandler R → Option (List (PointFrame R) × PubHandler R)
  unfolding get_lidar_id process_for
  raw_data_process raw_data now s =
      process_for (get_lidar_id raw_data.lidar_type raw_data.handle) raw_data now s
