-- ===== src/Pointcl/CloudLaws.antt =====
-- What livox_to_pcl publishes.
use firt_version_ws.Prelude.{
  if_true, if_false, ℕ, zero, suc, ◌≤◌, true, ◌≡◌, ◌≢◌, refl, ◌∙◌, Option, none, some, List, [],
  ◌∷◌, arith, inl, inr, Bool-cases, length, ◌==◌,
}
use firt_version_ws.Platform.{Platform, dec, le}
use firt_version_ws.Pointcl.Pcl.{Pcl, PointI, Axis, axis_x, axis_y, axis_z}
use firt_version_ws.Pointcl.Cloud.{
  CustomPoint, CustomMsg, Filter, filters, to_point, copy_points, pass_all, apply_filters,
  custom_msg_callback, publish_filtered,
}

module _ {R : Type 0} where
  -- The field that a pass-through filter reads.
  abbrev pub field_of : Axis → PointI R → R
  field_of axis_x q = q.position.x
  field_of axis_y q = q.position.y
  field_of axis_z q = q.position.z

module _ {R : Type 0} ⦃p : Platform R⦄ where
  abbrev pub Within : Axis → R → R → PointI R → Type 0
  Within axis low high q = (le low (field_of axis q) ≡ true) × (le (field_of axis q) high ≡ true)

  -- A point inside the box of all the filters.
  abbrev pub InBox : List (Filter R) → PointI R → Type 0
  InBox [] q = Unit {0}
  InBox (f ∷ fs) q = Within f.axis f.min_val f.max_val q × InBox fs q

module _ {R : Type 0} where
  abbrev pub AllIn : (PointI R → Type 0) → List (PointI R) → Type 0
  AllIn P [] = Unit {0}
  AllIn P (q ∷ qs) = P q × AllIn P qs

-- pcl::PassThrough, as it is documented: the points whose field is within the limits, and no other
-- points than those it is given.
pub record FiltersByField (R : Type 0) ⦃p : Platform R⦄ ⦃l : Pcl R⦄ : Type 1 where
  pub within :
      (axis : Axis) (low high : R) (cloud : List (PointI R))
      → AllIn (Within axis low high) (l.pass_through axis low high cloud)
  pub keeps :
      (P : PointI R → Type 0) (axis : Axis) (low high : R) (cloud : List (PointI R))
      → AllIn P cloud
      → AllIn P (l.pass_through axis low high cloud)

module _ {R : Type 0} where
  -- The copying loop succeeds when the message has the points that it says, and copies that many.
  copy_points_total :
      (n : ℕ) (points : List (CustomPoint R))
      → n ≤ length points
      → (cloud : List (PointI R)) × (copy_points n points ≡ some cloud) × (length cloud ≡ n)
  unfolding copy_points
  copy_points_total zero points l = ([], refl, refl)
  copy_points_total (suc n) [] l = absurd (omega arith)
  copy_points_total (suc n) (q ∷ points) l =
      let (cloud, e, len) = copy_points_total n points (omega arith) in
      (to_point q ∷ cloud, rw e, omega arith)

  AllIn-both :
      (P Q : PointI R → Type 0) (cloud : List (PointI R))
      → AllIn P cloud
      → AllIn Q cloud
      → AllIn (λ q. P q × Q q) cloud
  AllIn-both P Q [] h k = tt
  AllIn-both P Q (q ∷ qs) (h, hs) (k, ks) = ((h, k), AllIn-both P Q qs hs ks)

module _ {R : Type 0} ⦃p : Platform R⦄ ⦃l : Pcl R⦄ (laws : FiltersByField R) where
  pass_all-keeps :
      (fs : List (Filter R)) (P : PointI R → Type 0) (cloud : List (PointI R))
      → AllIn P cloud
      → AllIn P (pass_all fs cloud)
  unfolding pass_all
  pass_all-keeps [] P cloud h = h
  pass_all-keeps (f ∷ fs) P [] h = tt
  pass_all-keeps (f ∷ fs) P (q ∷ qs) h =
      pass_all-keeps fs P (l.pass_through f.axis f.min_val f.max_val (q ∷ qs))
        (laws.keeps P f.axis f.min_val f.max_val (q ∷ qs) h)

  pass_all-InBox :
      (fs : List (Filter R)) (cloud : List (PointI R)) → AllIn (InBox fs) (pass_all fs cloud)
  unfolding pass_all
  pass_all-InBox [] [] = tt
  pass_all-InBox [] (q ∷ qs) = (tt, pass_all-InBox [] qs)
  pass_all-InBox (f ∷ fs) [] = tt
  pass_all-InBox (f ∷ fs) (q ∷ qs) =
      let cut = l.pass_through f.axis f.min_val f.max_val (q ∷ qs) in
      let inside = laws.within f.axis f.min_val f.max_val (q ∷ qs) in
      AllIn-both (Within f.axis f.min_val f.max_val) (InBox fs) (pass_all fs cut)
        (pass_all-keeps fs (Within f.axis f.min_val f.max_val) cut inside) (pass_all-InBox fs cut)

  -- What a cloud that is published went through.
  pub record IsFiltered (cloud : List (PointI R)) : Type 0 where
    pub passed : List (PointI R)
    pub sampled : cloud ≡ l.voxel_grid (p.to_float (dec 5 2)) passed
    pub some_passed : passed ≢ []
    pub some_left : cloud ≢ []
    pub in_box : AllIn (InBox filters) passed

  filtered_lem :
      (cloud published : List (PointI R))
      → publish_filtered (apply_filters cloud) ≡ some published
      → IsFiltered published
  unfolding publish_filtered apply_filters
  filtered_lem cloud published h = record {
    passed = pass_all filters cloud;
    sampled = ground (arith, h);
    some_passed = λ e. ground (arith, e);
    some_left = λ e. ground (arith, e);
    in_box = pass_all-InBox filters cloud;
  }

  -- A message with as many points as it says is handled without a read past the end; and what it
  -- publishes, if anything, is the voxel-filtered form of a cloud that is not empty and lies inside
  -- the box of the three filters, 0 to 2, -2 to 2 and -1 to 1. What is published is not empty.
  pub published_InBox :
      (msg : CustomMsg R)
      → msg.point_num ≤ length msg.points
      → (published : Option (List (PointI R))) × (custom_msg_callback msg ≡ some published)
        × ((cloud : List (PointI R)) → published ≡ some cloud → IsFiltered cloud)
  unfolding custom_msg_callback
  published_InBox msg enough =
      let (cloud, e, len) = copy_points_total msg.point_num msg.points enough in
      elim (Bool-cases (msg.point_num == 0)) [
        | inl empty ↦ (none, if_true _ _ empty, λ c k. absurd (ground (arith, k)))
        | inr more ↦ (
          publish_filtered (apply_filters cloud),
          if_false _ _ more ∙ (rw e),
          λ c k. filtered_lem cloud c k,
        )
      ]
