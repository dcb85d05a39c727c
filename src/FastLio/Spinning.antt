-- ===== src/FastLio/Spinning.antt =====
-- preprocess.cpp: oust64_handler(), velodyne_handler() and process() for messages of type PointCloud2.
-- The branches for features of the two handlers are arguments.
pub mod Laws
pub mod Blind
use firt_version_ws.Prelude.{
  ℕ, ◌+◌, ◌%◌, Bool, true, false, not, ◌&&◌, if◌then◌else◌, Option, none, some, List, [], ◌∷◌, ◌++◌,
  ◌==◌, ◌>>=◌, get_elem?, set, last_or,
}
use firt_version_ws.Platform.{Platform, ◌⊕◌, ◌⊗◌, dec, lt}
use firt_version_ws.FastLio.Preprocess.{PointType, Preprocess, float_square}
use firt_version_ws.FastLio.Clouds.{
  CloudPoint, Layers, new_layers, if_outside, offset_time, default_handler, mid360_handler,
}

-- velodyne_ros::Point
pub record VelodynePoint (R : Type 0) : Type 0 where
  pub x : R
  pub y : R
  pub z : R
  pub intensity : R
  pub time : R
  pub ring : ℕ

-- ouster_ros::Point, without what the handler does not read.
pub record OusterPoint (R : Type 0) : Type 0 where
  pub x : R
  pub y : R
  pub z : R
  pub intensity : R
  pub t : ℕ

-- What the two handlers make of the points with features enabled, which is not modelled. The number
-- is time_unit_scale.
pub record Features (R : Type 0) : Type 0 where
  pub oust64 : Preprocess R → R → List (OusterPoint R) → Option (List (PointType R))
  pub velodyne : Preprocess R → R → List (VelodynePoint R) → Option (List (PointType R))

pub data TimeUnit : Type 0 where
  sec ms us ns other_unit : TimeUnit

module _ {R : Type 0} ⦃p : Platform R⦄ where
  unfoldable pub time_unit_scale : TimeUnit → R
  time_unit_scale sec = dec 1000 0
  time_unit_scale ms = dec 1 0
  time_unit_scale us = p.to_float (dec 1 3)
  time_unit_scale ns = p.to_float (dec 1 6)
  time_unit_scale other_unit = dec 1 0

  -- The square of the distance, rounded to `float` at each step.
  abbrev pub range_of : PointType R → R
  range_of a = p.to_float (p.to_float (float_square a.x ⊕ float_square a.y) ⊕ float_square a.z)

  -- The point for the scan: each point_filter_num-th index, outside the blind range. `none`: a
  -- remainder by 0.
  unfoldable pub push_filtered : Preprocess R → ℕ → PointType R → Option (List (PointType R))
  unfolding if_outside
  push_filtered s i a =
      if s.point_filter_num == 0
      then none
      else some (if i % s.point_filter_num == 0 then if_outside s a else [])

module _ {R : Type 0} ⦃p : Platform R⦄ (to_double : ℕ → R) where
  abbrev pub ouster_point : R → OusterPoint R → PointType R
  ouster_point scale q = record {
    x = q.x;
    y = q.y;
    z = q.z;
    intensity = q.intensity;
    curvature = p.to_float (p.to_float (to_double q.t) ⊗ scale);
  }

  unfoldable pub oust64_point : Preprocess R → R → ℕ → OusterPoint R → Option (List (PointType R))
  oust64_point s scale i q =
      let added_pt = ouster_point scale q in
      if s.point_filter_num == 0
      then none
      else some (
          if i % s.point_filter_num == 0 && not (lt (range_of added_pt) (s.blind ⊗ s.blind))
          then added_pt ∷ []
          else [])

  -- pl_surf of the points from the i-th on.
  unfoldable pub oust64_from :
      Preprocess R → R → ℕ → List (OusterPoint R) → Option (List (PointType R))
  unfolding oust64_point
  oust64_from s scale i [] = some []
  oust64_from s scale i (q ∷ pl_orig) = do
    here ← oust64_point s scale i q
    rest ← oust64_from s scale (i + 1) pl_orig
    some (here ++ rest)

  unfoldable pub oust64_handler :
      Features R → Preprocess R → R → List (OusterPoint R) → Option (List (PointType R))
  unfolding oust64_from
  oust64_handler features s scale pl_orig =
      if s.feature_enabled then features.oust64 s scale pl_orig else oust64_from s scale 0 pl_orig

module _ {R : Type 0} ⦃p : Platform R⦄ (atan2 : R → R → R) where
  abbrev pub velodyne_added : R → VelodynePoint R → PointType R
  velodyne_added curvature q = record {
    x = q.x;
    y = q.y;
    z = q.z;
    intensity = q.intensity;
    curvature = curvature;
  }

  -- A point without a time of its own, as in mid360_handler.
  unfoldable pub velodyne_untimed :
      Preprocess R → R → Layers R → ℕ → VelodynePoint R → Option (Layers R × List (PointType R))
  unfolding push_filtered offset_time
  velodyne_untimed s omega_l l i q = do
    let yaw_angle = atan2 q.y q.x ⊗ dec 572957 4
    first ← get_elem? l.is_first q.ring
    yaw_fp ← get_elem? l.yaw_fp q.ring
    time_last ← get_elem? l.time_last q.ring
    let curvature = offset_time omega_l yaw_fp time_last yaw_angle
    let started : Layers R = record {
      is_first = set l.is_first q.ring false;
      yaw_fp = set l.yaw_fp q.ring yaw_angle;
      time_last = set l.time_last q.ring (dec 0 0);
    }
    let timed : Layers R = record l { time_last = set l.time_last q.ring curvature }
    let filtered = push_filtered s i (velodyne_added curvature q)
    if first then some (started, []) else filtered >>= λ here. some (timed, here)

  unfoldable pub velodyne_timed :
      Preprocess R → R → Layers R → ℕ → VelodynePoint R → Option (Layers R × List (PointType R))
  unfolding push_filtered
  velodyne_timed s scale l i q = do
    here ← push_filtered s i (velodyne_added (p.to_float (q.time ⊗ scale)) q)
    some (l, here)

  unfoldable pub velodyne_from :
      Preprocess R
      → R
      → R
      → Bool
      → Layers R
      → ℕ
      → List (VelodynePoint R)
      → Option (List (PointType R))
  unfolding velodyne_untimed velodyne_timed
  velodyne_from s scale omega_l given_offset_time l i [] = some []
  velodyne_from s scale omega_l given_offset_time l i (q ∷ pl_orig) = do
    (l', here) ←
        if given_offset_time then velodyne_timed s scale l i q else velodyne_untimed s omega_l l i q
    rest ← velodyne_from s scale omega_l given_offset_time l' (i + 1) pl_orig
    some (here ++ rest)

  -- The last point tells whether the points have times. yaw_first and yaw_end are not read.
  unfoldable pub velodyne_handler :
      Features R → (ℕ → R) → Preprocess R → R → List (VelodynePoint R) → Option (List (PointType R))
  unfolding velodyne_from
  velodyne_handler features to_double s scale [] = some []
  velodyne_handler features to_double s scale (q ∷ pl_orig) =
      let given_offset_time = lt (dec 0 0) (last_or q pl_orig).time in
      if s.feature_enabled
      then features.velodyne s scale (q ∷ pl_orig)
      else velodyne_from s scale (dec 361 3 ⊗ to_double s.scan_rate) given_offset_time
          (new_layers s.n_scans) 0 (q ∷ pl_orig)

-- `from_ouster` and the others are pcl::fromROSMsg for the cloud's type of point.
module _ {R : Type 0} ⦃p : Platform R⦄ {Message : Type 0} (features : Features R)
    (atan2 : R → R → R) (to_double : ℕ → R) (from_ouster : Message → List (OusterPoint R))
    (from_velodyne : Message → List (VelodynePoint R))
    (from_livox from_plain : Message → List (CloudPoint R)) where
  -- VELO16 is 2, OUST64 3 and MID360 4.
  unfoldable pub process_cloud : Preprocess R → TimeUnit → Message → Option (List (PointType R))
  unfolding time_unit_scale oust64_handler velodyne_handler mid360_handler default_handler
  process_cloud s time_unit msg =
      let scale = time_unit_scale time_unit in
      if s.lidar_type == 3
      then oust64_handler to_double features s scale (from_ouster msg)
      else if s.lidar_type == 2
      then velodyne_handler atan2 features to_double s scale (from_velodyne msg)
      else if s.lidar_type == 4
      then mid360_handler atan2 to_double s (from_livox msg)
      else some (default_handler s (from_plain msg))
