-- ===== src/Livox/Messages/Laws.antt =====
-- What the driver's messages say of a packet, and what livox_to_pcl makes of them.
use firt_version_ws.Prelude.{
  ℕ, ◌+◌, ◌-◌, ◌*◌, ◌%◌, ◌^◌, ◌≤◌, ◌<◌, true, false, ◌≡◌, refl, subst, ◌∙◌, if◌then◌else◌, some,
  List, [], ◌∷◌, map, arith, length, read_first, read_first-length, inl, inr, Bool-cases, All,
}
use firt_version_ws.Livox.Data.{PointXyzlt, StoragePacket, no_points}
use firt_version_ws.Livox.Ldq.Refine.{IsPacket}
use firt_version_ws.Livox.Lds.{LidarDevice}
use firt_version_ws.Livox.Messages.{
  CustomMsg, cloud_fields, Message, custom, cloud, custom_point, cloud_point, init_custom_msg,
  init_pointcloud2_msg, fill_points_to_custom_msg, custom_of, cloud_of,
}

module _ {R : Type 0} where
  pub read_packet :
      (s : StoragePacket R) → IsPacket s → read_first s.points_num s.points ≡ some s.points
  read_packet s h =
      subst (λ k. read_first k s.points ≡ some s.points) h (read_first-length s.points)

  pub filled_lem : (points : List (PointXyzlt R)) → 0 < length points → no_points points ≡ false
  filled_lem [] h = elim h [ ]
  filled_lem (q ∷ points) h = refl

module _ {R : Type 0} (to_uint8 : R → ℕ) (to_double : ℕ → R) where
  -- The messages for a packet: none if it has no points.
  abbrev pub custom_message : LidarDevice R → StoragePacket R → CustomMsg R
  custom_message lidar s = record (init_custom_msg to_uint8 to_double s lidar) {
    points = map (custom_point to_uint8 to_double s.base_time) s.points;
  }

  abbrev pub custom_messages : LidarDevice R → StoragePacket R → List (Message R)
  custom_messages lidar s = if no_points s.points then [] else custom (custom_message lidar s) ∷ []

  pub custom_of-eq :
      (lidar : LidarDevice R) (s : StoragePacket R)
      → IsPacket s
      → custom_of to_uint8 to_double lidar s ≡ some (custom_messages lidar s)
  unfolding custom_of fill_points_to_custom_msg
  custom_of-eq lidar s h = elim (Bool-cases (no_points s.points)) [
    | inl e ↦ rw e refl
    | inr e ↦ rw (e, read_packet s h) refl
  ]

  abbrev pub cloud_messages : StoragePacket R → List (Message R)
  cloud_messages s =
      if no_points s.points
      then []
      else cloud (record {
        stamp = s.base_time;
        height = 1;
        width = length s.points;
        point_step = 26;
        row_step = length s.points * 26 % 2 ^ 32;
        data_size = length s.points * 26;
        is_bigendian = false;
        is_dense = true;
        fields = cloud_fields;
        points = map (cloud_point to_uint8 to_double) s.points;
      })
        ∷ []

  pub cloud_of-eq :
      (s : StoragePacket R) → IsPacket s → cloud_of to_uint8 to_double s ≡ some (cloud_messages s)
  unfolding cloud_of init_pointcloud2_msg
  cloud_of-eq s h = elim (Bool-cases (no_points s.points)) [
    | inl e ↦ rw e refl
    | inr e ↦ rw (e, read_packet s h, h) refl
  ]

  -- A time that is less than 2 ^ 32 ns after the packet's base time.
  abbrev pub InReach : ℕ → PointXyzlt R → Type 0
  InReach base_time q = (base_time ≤ q.offset_time) × (q.offset_time < base_time + 2 ^ 32)

  offset-back :
      (base_time : ℕ) (points : List (PointXyzlt R))
      → base_time < 2 ^ 64
      → All (InReach base_time) points
      → map
          (λ q. base_time + q.offset_time)
          (map (custom_point to_uint8 to_double base_time) points)
        ≡ map (λ q. q.offset_time) points
  unfolding custom_point
  offset-back base_time [] low h = refl
  offset-back base_time (q ∷ points) low h =
      let here : base_time + (q.offset_time + 2 ^ 64 - base_time) % 2 ^ 64 % 2 ^ 32
          ≡ q.offset_time =
        omega (arith, h.0.0, h.0.1, low) in
      rw (here, offset-back base_time points low h.1) refl

  -- A packet with points, and as many as it says, becomes one message, whose time base and offsets
  -- give the points' own times back, if none is before the packet's base time (a uint64_t) or
  -- 2 ^ 32 ns or more after it.
  pub offset_time-roundtrip :
      (lidar : LidarDevice R) (s : StoragePacket R)
      → IsPacket s
      → 0 < length s.points
      → s.base_time < 2 ^ 64
      → All (InReach s.base_time) s.points
      → (message : CustomMsg R) × (custom_of to_uint8 to_double lidar s
          ≡ some (custom message ∷ []))
        × (map (λ q. message.timebase + q.offset_time) message.points
            ≡ map (λ q. q.offset_time) s.points)
  unfolding init_custom_msg
  offset_time-roundtrip lidar s h some_points low reach =
      let filled : no_points s.points ≡ false = filled_lem s.points some_points in
      (
        custom_message lidar s,
        custom_of-eq lidar s h ∙ (rw filled refl),
        rw filled (offset-back s.base_time s.points low reach),
      )
