-- ===== src/Pointcl/Cloud.antt =====
-- pointcl/src/livox_to_pcl.cpp: a Livox message becomes a filtered cloud.
use firt_version_ws.Prelude.{
  ℕ, zero, suc, Bool, if◌then◌else◌, Option, none, some, List, [], ◌∷◌, ◌==◌,
}
use firt_version_ws.Platform.{Platform, dec, neg}
use firt_version_ws.Pointcl.Pcl.{Pcl, PointI, Axis, axis_x, axis_y, axis_z}

-- livox_ros_driver2/CustomPoint and CustomMsg, as far as the node reads them.
pub record CustomPoint (R : Type 0) : Type 0 where
  pub x : R
  pub y : R
  pub z : R
  pub reflectivity : R

pub record CustomMsg (R : Type 0) : Type 0 where
  pub point_num : ℕ
  pub points : List (CustomPoint R)

abbrev pub Filter : Type 0 → Type 0
Filter R = record { axis : Axis; min_val : R; max_val : R }

abbrev pub is_empty {ℓ} : {A : Type ℓ} → List A → Bool
is_empty [] = Bool.true
is_empty (x ∷ xs) = Bool.false

module _ {R : Type 0} where
  unfoldable pub to_point : CustomPoint R → PointI R
  to_point q = record {
    position = record { x = q.x; y = q.y; z = q.z };
    intensity = q.reflectivity;
  }

  -- The copying loop over i < point_num. `none`: a read past the end of the message's points.
  unfoldable pub copy_points : ℕ → List (CustomPoint R) → Option (List (PointI R))
  unfolding to_point
  copy_points zero points = some []
  copy_points (suc n) [] = none
  copy_points (suc n) (q ∷ points) = elim (copy_points n points) [
    | none ↦ none
    | some rest ↦ some (to_point q ∷ rest)
  ]

module _ {R : Type 0} ⦃p : Platform R⦄ where
  unfoldable pub filters : List (Filter R)
  filters =
      record { axis = axis_x; min_val = dec 0 0; max_val = dec 2 0 }
      ∷ record { axis = axis_y; min_val = neg (dec 2 0); max_val = dec 2 0 }
      ∷ record { axis = axis_z; min_val = neg (dec 1 0); max_val = dec 1 0 }
      ∷ []

module _ {R : Type 0} ⦃p : Platform R⦄ ⦃l : Pcl R⦄ where
  -- The loop over the filters, which stops at an empty cloud.
  unfoldable pub pass_all : List (Filter R) → List (PointI R) → List (PointI R)
  pass_all [] cloud = cloud
  pass_all (f ∷ fs) cloud =
      let rest = pass_all fs (l.pass_through f.axis f.min_val f.max_val cloud) in
      if is_empty cloud then cloud else rest

  unfoldable pub apply_filters : List (PointI R) → List (PointI R)
  unfolding pass_all filters
  apply_filters cloud =
      let passed = pass_all filters cloud in
      if is_empty passed then passed else l.voxel_grid (p.to_float (dec 5 2)) passed

  -- A filtered cloud is published unless it is empty.
  unfoldable pub publish_filtered : List (PointI R) → Option (List (PointI R))
  publish_filtered filtered = if is_empty filtered then none else some filtered

  -- The cloud that is published, if one is. The outer `none` is the read past the end.
  unfoldable pub custom_msg_callback : CustomMsg R → Option (Option (List (PointI R)))
  unfolding apply_filters copy_points publish_filtered
  custom_msg_callback msg =
      if msg.point_num == 0 then some none else elim (copy_points msg.point_num msg.points) [
        | none ↦ none
        | some cloud ↦ some (publish_filtered (apply_filters cloud))
      ]
