-- ===== src/FastLio/Preprocess.antt =====
-- preprocess.cpp: class Preprocess, what it makes of the driver's message.
pub mod Laws
use firt_version_ws.Prelude.{
  ℕ, zero, suc, ◌+◌, ◌%◌, Bool, true, false, not, ◌&&◌, ◌||◌, if◌then◌else◌, Option, none, some,
  List, [], ◌∷◌, ◌==◌, ltb, ◌>>=◌, and32, read_first, map,
}
use firt_version_ws.Platform.{Platform, ◌⊕◌, ◌⊖◌, ◌⊗◌, ◌⊘◌, dec, lt}
use firt_version_ws.Livox.Messages.{CustomMsg, CustomPoint}
use firt_version_ws.FastLio.Sync.{Scan, tail}

-- pcl::PointXYZINormal without the normals, which stay 0. The curvature is the time in ms.
pub record PointType (R : Type 0) : Type 0 where
  pub x : R
  pub y : R
  pub z : R
  pub intensity : R
  pub curvature : R

-- The fields of Preprocess that the handlers read.
pub record Preprocess (R : Type 0) : Type 0 where
  pub feature_enabled : Bool
  pub lidar_type : ℕ
  pub blind : R
  pub point_filter_num : ℕ
  pub n_scans : ℕ
  pub scan_rate : ℕ

module _ {R : Type 0} where
  unfoldable pub set_preprocess : Bool → ℕ → R → ℕ → Preprocess R → Preprocess R
  set_preprocess feat_en lid_type bld pfilt_num s = record s {
    feature_enabled = feat_en;
    lidar_type = lid_type;
    blind = bld;
    point_filter_num = pfilt_num;
  }

module _ {R : Type 0} ⦃p : Platform R⦄ where
  -- AVIA is 1.
  unfoldable pub new_preprocess : Preprocess R
  new_preprocess = record {
    feature_enabled = false;
    lidar_type = 1;
    blind = dec 1 2;
    point_filter_num = 1;
    n_scans = 6;
    scan_rate = 10;
  }

  -- A point of pl_full after resize.
  abbrev pub zero_point : PointType R
  zero_point = record {
    x = dec 0 0;
    y = dec 0 0;
    z = dec 0 0;
    intensity = dec 0 0;
    curvature = dec 0 0;
  }

  unfoldable pub is_valid : Preprocess R → CustomPoint R → Bool
  is_valid s q = ltb q.line s.n_scans && ((and32 q.tag 0x30 == 0x10) || (and32 q.tag 0x30 == 0x00))

  -- Two `float` coordinates differ by more than 1e-7.
  abbrev pub differ_in : R → R → Bool
  differ_in a b = lt (dec 1 7) (p.abs (p.to_float (a ⊖ b)))

  unfoldable pub is_new : PointType R → PointType R → Bool
  is_new a b = differ_in a.x b.x || differ_in a.y b.y || differ_in a.z b.z

  abbrev pub float_square : R → R
  float_square a = p.to_float (a ⊗ a)

  unfoldable pub is_outside : Preprocess R → PointType R → Bool
  is_outside s a =
      lt (s.blind ⊗ s.blind)
        (p.to_float (p.to_float (float_square a.x ⊕ float_square a.y) ⊕ float_square a.z))

module _ {R : Type 0} ⦃p : Platform R⦄ (to_double : ℕ → R) where
  unfoldable pub point_of : CustomPoint R → PointType R
  point_of q = record {
    x = q.x;
    y = q.y;
    z = q.z;
    intensity = to_double q.reflectivity;
    curvature = p.to_float (p.to_float (to_double q.offset_time) ⊘ dec 1000000 0);
  }

  -- The loop of avia_handler on the points from i on. `previous` is pl_full[i - 1].
  unfoldable pub avia_from :
      Preprocess R → PointType R → ℕ → List (CustomPoint R) → List (PointType R)
  unfolding is_valid point_of is_new is_outside
  avia_from s previous valid_num [] = []
  avia_from s previous valid_num (q ∷ points) =
      let skipped = avia_from s zero_point valid_num points in
      let filtered = avia_from s zero_point (valid_num + 1) points in
      let here = point_of q in
      let written = avia_from s here (valid_num + 1) points in
      if not (is_valid s q)
      then skipped
      else if not ((valid_num + 1) % s.point_filter_num == 0)
      then filtered
      else if is_new here previous && is_outside s here
      then here ∷ written
      else written

  -- avia_handler: pl_surf. `features` is its branch for features, which is not modelled. `none`: the
  -- message has fewer points than its point_num says, or the remainder is by 0.
  unfoldable pub avia_handler :
      (Preprocess R → CustomMsg R → Option (List (PointType R)))
      → Preprocess R
      → CustomMsg R
      → Option (List (PointType R))
  unfolding avia_from
  avia_handler features s msg = if s.feature_enabled then features s msg else do
    points ← read_first msg.point_num msg.points
    if s.point_filter_num == 0 then none else some (avia_from s zero_point 0 (tail points))

  -- process for a CustomMsg, and the scan as sync_packages() reads it.
  unfoldable pub process_custom :
      (Preprocess R → CustomMsg R → Option (List (PointType R)))
      → Preprocess R
      → CustomMsg R
      → Option (Scan R)
  unfolding avia_handler
  process_custom features s msg = do
    pl_surf ← avia_handler features s msg
    some (map (λ (a : PointType R). a.curvature) pl_surf)
