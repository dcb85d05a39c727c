-- ===== src/Livox/Data.antt =====
-- The structures of comm/comm.h that the data path uses. `R` holds the `float` values.
use firt_version_ws.Prelude.{ℕ, Bool, true, false, List, [], ◌∷◌}

pub record PointXyzlt (R : Type 0) : Type 0 where
  pub x : R
  pub y : R
  pub z : R
  pub intensity : R
  pub tag : ℕ
  pub line : ℕ
  pub offset_time : ℕ

-- `points` is what the pointer leads to.
pub record PointPacket (R : Type 0) : Type 0 where
  pub handle : ℕ
  pub lidar_type : ℕ
  pub points_num : ℕ
  pub points : List (PointXyzlt R)

-- The fields of StoragePacket that the queue writes and reads.
pub record StoragePacket (R : Type 0) : Type 0 where
  pub base_time : ℕ
  pub points_num : ℕ
  pub points : List (PointXyzlt R)

-- kLivoxLidarType, the only type of lidar that the driver serves.
abbrev pub livox_lidar_type : ℕ
livox_lidar_type = 8

-- kMaxSourceLidar
abbrev pub max_source_lidar : ℕ
max_source_lidar = 32

-- points.empty()
abbrev pub no_points : {R : Type 0} → List (PointXyzlt R) → Bool
no_points [] = true
no_points (q ∷ points) = false
