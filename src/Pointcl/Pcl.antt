-- ===== src/Pointcl/Pcl.antt =====
-- What the two nodes take from the point-cloud library: its filters, its bounding box and its
-- clustering.
use firt_version_ws.Prelude.{ℕ, List}
use firt_version_ws.Offboard.State.{Point}

-- pcl::PointXYZI; pcl::PointXYZ is its position.
pub record PointI (R : Type 0) : Type 0 where
  pub position : Point R
  pub intensity : R

-- The field that a pass-through filter reads.
pub data Axis : Type 0 where
  axis_x axis_y axis_z : Axis

pub record Pcl (R : Type 0) : Type 0 where
  pub pass_through : Axis → R → R → List (PointI R) → List (PointI R)
  pub voxel_grid : R → List (PointI R) → List (PointI R)
  pub min_pt : List (Point R) → Point R
  pub max_pt : List (Point R) → Point R
  -- tolerance, least and greatest size; each cluster is a list of indices
  pub extract : R → ℕ → ℕ → List (Point R) → List (List ℕ)
