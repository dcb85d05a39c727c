-- ===== src/Livox/Frames/Handler.antt =====
-- LidarPubHandler: the points of one lidar that are not published yet.
use firt_version_ws.Prelude.{
  ℕ, zero, suc, ◌+◌, Bool, true, false, not, if◌then◌else◌, Option, none, some, List, [], ◌∷◌, ◌++◌,
  ◌==◌, ◌>>=◌, last_or,
}
use firt_version_ws.Platform.{Platform, dec}
use firt_version_ws.Livox.Data.{PointXyzlt, livox_lidar_type}
use firt_version_ws.Livox.Frames.{
  cartesian_high, cartesian_low, spherical, unknown, RawPacket, Extrinsic, ExtParameter,
  cartesian_point, spherical_point, default_extrinsic, extrinsic_of,
}

pub record LidarPubHandler (R : Type 0) : Type 0 where
  pub points_clouds : List (PointXyzlt R)
  pub extrinsic : Extrinsic R
  pub is_set_extrinsic_params : Bool

module _ {R : Type 0} where
  -- 0 if there are no points.
  unfoldable pub get_lidar_base_time : LidarPubHandler R → ℕ
  get_lidar_base_time h = elim h.points_clouds [ [] ↦ 0 | q ∷ points ↦ q.offset_time ]

  unfoldable pub get_recent_time_stamp : LidarPubHandler R → ℕ
  get_recent_time_stamp h = elim h.points_clouds [
    | [] ↦ 0
    | q ∷ points ↦ (last_or q points).offset_time
  ]

  -- The swap with a vector that was cleared.
  unfoldable pub get_lidar_point_clouds :
      LidarPubHandler R → List (PointXyzlt R) × LidarPubHandler R
  get_lidar_point_clouds h = (h.points_clouds, record h { points_clouds = [] })

  -- The loop over i < point_num, at i with `rest` to go. `none`: a read past the end.
  unfoldable pub convert :
      {A : Type 0} → (ℕ → A → PointXyzlt R) → ℕ → ℕ → List A → Option (List (PointXyzlt R))
  convert body i zero raw = some []
  convert body i (suc rest) [] = none
  convert body i (suc rest) (a ∷ raw) = do
    points ← convert body (i + 1) rest raw
    some (body i a ∷ points)

module _ {R : Type 0} ⦃p : Platform R⦄ where
  unfoldable pub new_lidar_pub_handler : LidarPubHandler R
  unfolding default_extrinsic
  new_lidar_pub_handler = record {
    points_clouds = [];
    extrinsic = default_extrinsic;
    is_set_extrinsic_params = false;
  }

  -- Only the first call has an effect.
  unfoldable pub set_lidars_ext_param : ExtParameter R → LidarPubHandler R → LidarPubHandler R
  unfolding extrinsic_of
  set_lidars_ext_param param h =
      if h.is_set_extrinsic_params
      then h
      else record h { extrinsic = extrinsic_of param; is_set_extrinsic_params = true }

  -- The points that LivoxLidarPointCloudProcess adds.
  unfoldable pub points_of : Extrinsic R → RawPacket R → Option (List (PointXyzlt R))
  unfolding convert cartesian_point spherical_point
  points_of e pkt = elim pkt.raw_data [
    | cartesian_high raw ↦ convert (cartesian_point (dec 1000 0) e pkt) 0 pkt.point_num raw
    | cartesian_low raw ↦ convert (cartesian_point (dec 100 0) e pkt) 0 pkt.point_num raw
    | spherical raw ↦ convert (spherical_point e pkt) 0 pkt.point_num raw
    | unknown ↦ some []
  ]

  unfoldable pub point_cloud_process : RawPacket R → LidarPubHandler R → Option (LidarPubHandler R)
  unfolding points_of
  point_cloud_process pkt h = if not (pkt.lidar_type == livox_lidar_type) then some h else do
    points ← points_of h.extrinsic pkt
    some (record h { points_clouds = h.points_clouds ++ points })
