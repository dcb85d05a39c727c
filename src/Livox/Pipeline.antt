-- ===== src/Livox/Pipeline.antt =====
-- From a packet of the driver to the cloud of pointcl/src/livox_to_pcl.cpp.
use firt_version_ws.Prelude.{
  ℕ, ◌<◌, ◌≡◌, refl, ◌∙◌, false, some, List, [], ◌∷◌, map, arith, length, ◌==◌,
}
use firt_version_ws.Platform.{Platform}
use firt_version_ws.Pointcl.Pcl.{Pcl, PointI}
use firt_version_ws.Pointcl.Cloud
use firt_version_ws.Pointcl.Cloud.{
  to_point, copy_points, custom_msg_callback, publish_filtered, apply_filters,
}
use firt_version_ws.Livox.Data.{PointXyzlt, StoragePacket}
use firt_version_ws.Livox.Ldq.Refine.{IsPacket}
use firt_version_ws.Livox.Lds.{LidarDevice}
use firt_version_ws.Livox.Messages.{
  CustomMsg, CustomPoint, custom, custom_of, custom_point, init_custom_msg,
}
use firt_version_ws.Livox.Messages.Laws.{custom_message, custom_of-eq, filled_lem}

-- `of_nat` is the conversion of a uint8 to a float.
module _ {R : Type 0} (of_nat : ℕ → R) where
  -- The fields of the message that livox_to_pcl reads.
  abbrev pub seen_point : CustomPoint R → Cloud.CustomPoint R
  seen_point q = record { x = q.x; y = q.y; z = q.z; reflectivity = of_nat q.reflectivity }

  abbrev pub seen : CustomMsg R → Cloud.CustomMsg R
  seen message = record { point_num = message.point_num; points = map seen_point message.points }

  -- The point of the cloud that a point of the lidar becomes: its intensity goes through a uint8.
  abbrev pub cloud_point_of : (R → ℕ) → PointXyzlt R → PointI R
  cloud_point_of to_uint8 q = record {
    position = record { x = q.x; y = q.y; z = q.z };
    intensity = of_nat (to_uint8 q.intensity);
  }

  copy-points :
      (to_uint8 : R → ℕ) (to_double : ℕ → R) (base_time : ℕ) (points : List (PointXyzlt R))
      → copy_points
          (length points)
          (map seen_point (map (custom_point to_uint8 to_double base_time) points))
        ≡ some (map (cloud_point_of to_uint8) points)
  unfolding copy_points to_point custom_point
  copy-points to_uint8 to_double base_time [] = refl
  copy-points to_uint8 to_double base_time (q ∷ points) =
      rw (copy-points to_uint8 to_double base_time points) refl

  -- The driver makes one message of a packet with points, and as many as it says, and livox_to_pcl
  -- handles it without a read past the end: it publishes what its filters leave of the packet's
  -- points themselves, with their intensities cut to a uint8.
  pub packet_to_cloud :
      ⦃p : Platform R⦄ ⦃l : Pcl R⦄ (to_uint8 : R → ℕ) (to_double : ℕ → R) (lidar : LidarDevice R)
      (s : StoragePacket R)
      → IsPacket s
      → 0 < length s.points
      → (message : CustomMsg R) × (custom_of to_uint8 to_double lidar s
          ≡ some (custom message ∷ []))
        × (custom_msg_callback (seen message)
            ≡ some (publish_filtered (apply_filters (map (cloud_point_of to_uint8) s.points))))
  unfolding custom_msg_callback init_custom_msg
  packet_to_cloud to_uint8 to_double lidar s h some_points =
      let busy : (s.points_num == 0) ≡ false = ground (arith, h, some_points) in
      (
        custom_message to_uint8 to_double lidar s,
        custom_of-eq to_uint8 to_double lidar s h ∙ (rw (filled_lem s.points some_points) refl),
        rw (busy, ← h, copy-points to_uint8 to_double s.base_time s.points) refl,
      )
