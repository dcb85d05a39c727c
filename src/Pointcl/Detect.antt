-- ===== src/Pointcl/Detect.antt =====
-- pointcl/src/pole_detection.cpp, from a cluster of points to a candidate pole.
use firt_version_ws.Prelude.{
  ℕ, ◌+◌, Bool, false, ◌&&◌, if◌then◌else◌, Option, none, some, List, [], ◌∷◌, get_elem?, ◌==◌,
}
use firt_version_ws.Platform.{Platform, ◌⊕◌, ◌⊖◌, ◌⊗◌, ◌⊘◌, dec, neg, lt, le, max_of}
use firt_version_ws.Offboard.State.{Point}
use firt_version_ws.Pointcl.Pcl.{Pcl}

-- struct PoleInfo
pub record PoleInfo (R : Type 0) : Type 0 where
  pub id : ℕ
  pub lost_count : ℕ
  pub x : R
  pub y : R
  pub is_updated : Bool
  pub is_initialized : Bool
  pub is_used : Bool
  pub detected : Bool
  pub diameter : R
  pub distance : R

-- The parameters of declareParameters().
pub record PoleParams (R : Type 0) : Type 0 where
  pub cluster_tolerance : R
  pub min_cluster_size : ℕ
  pub max_cluster_size : ℕ
  pub pole_radius_threshold : R
  pub min_valid_distance : R
  pub min_height : R
  pub pole_association_threshold : R
  pub filter_alpha : R
  pub publish_x_min : R
  pub publish_x_max : R
  pub publish_y_min : R
  pub publish_y_max : R

module _ {R : Type 0} ⦃p : Platform R⦄ where
  -- The defaults of declareParameters().
  unfoldable pub default_params : PoleParams R
  default_params = record {
    cluster_tolerance = dec 1 1;
    min_cluster_size = 1;
    max_cluster_size = 10000;
    pole_radius_threshold = dec 3 1;
    min_valid_distance = dec 1 1;
    min_height = dec 2 1;
    pole_association_threshold = dec 5 1;
    filter_alpha = dec 7 1;
    publish_x_min = dec 1 1;
    publish_x_max = dec 2 0;
    publish_y_min = neg (dec 1 0);
    publish_y_max = dec 1 0;
  }

  -- std::sqrt(x * x + y * y) in `float`
  unfoldable pub calculate_distance : R → R → R
  calculate_distance x y =
      p.to_float (p.sqrt (p.to_float (p.to_float (x ⊗ x) ⊕ p.to_float (y ⊗ y))))

  -- PoleInfo(x, y, d)
  unfoldable pub new_pole : R → R → R → PoleInfo R
  unfolding calculate_distance
  new_pole x y d = record {
    id = 0;
    lost_count = 0;
    x = x;
    y = y;
    is_updated = false;
    is_initialized = false;
    is_used = false;
    detected = false;
    diameter = d;
    distance = calculate_distance x y;
  }

  unfoldable pub is_position_in_valid_range : PoleParams R → R → R → Bool
  is_position_in_valid_range c x y =
      le c.publish_x_min x && le x c.publish_x_max && le c.publish_y_min y && le y c.publish_y_max

  -- The highest point, from the lower corner of the bounding box upwards.
  unfoldable pub highest : R → List (Point R) → R
  highest max_z [] = max_z
  highest max_z (q ∷ qs) = highest (if lt max_z q.z then q.z else max_z) qs

-- The sums and the number of the points of the top region.
abbrev pub Top : Type 0 → Type 0
Top R = record { sum_x : R; sum_y : R; number : ℕ }

module _ {R : Type 0} ⦃p : Platform R⦄ where
  unfoldable pub sum_top : R → Top R → List (Point R) → Top R
  sum_top floor top [] = top
  sum_top floor top (q ∷ qs) =
      sum_top floor
        (if le floor q.z
          then record {
            sum_x = p.to_float (top.sum_x ⊕ q.x);
            sum_y = p.to_float (top.sum_y ⊕ q.y);
            number = top.number + 1;
          }
          else top)
        qs

module _ {R : Type 0} ⦃p : Platform R⦄ ⦃l : Pcl R⦄ where
  -- The tests on the bounding box, the top and the distance.
  unfoldable pub is_pole : PoleParams R → List (Point R) → R → R → R → Bool
  is_pole c cloud max_z diameter distance =
      lt diameter c.pole_radius_threshold
      && lt c.min_height (p.to_float ((l.max_pt cloud).z ⊖ (l.min_pt cloud).z))
      && lt max_z (dec 2 0)
      && lt c.min_valid_distance distance

  -- `none` is the null pointer.
  unfoldable pub analyze_pole_candidate : PoleParams R → List (Point R) → Option (PoleInfo R)
  unfolding highest sum_top calculate_distance new_pole is_pole
  analyze_pole_candidate c [] = none
  analyze_pole_candidate c (q ∷ qs) =
      let cloud = q ∷ qs in
      let low = l.min_pt cloud in
      let high = l.max_pt cloud in
      let diameter = max_of (p.to_float (high.x ⊖ low.x)) (p.to_float (high.y ⊖ low.y)) in
      let max_z = highest low.z cloud in
      let floor = p.to_float (max_z ⊖ p.to_float (dec 1 1)) in
      let none_yet : Top R = record { sum_x = dec 0 0; sum_y = dec 0 0; number = 0 } in
      let top = sum_top floor none_yet cloud in
      let x = p.to_float (top.sum_x ⊘ p.to_float (dec top.number 0)) in
      let y = p.to_float (top.sum_y ⊘ p.to_float (dec top.number 0)) in
      if top.number == 0
      then none
      else if is_pole c cloud max_z diameter (calculate_distance x y)
      then some (new_pole x y diameter)
      else none

module _ {R : Type 0} where
  -- The points of a cluster: `(*cloud)[idx]`, every index of a cluster being one of the cloud.
  unfoldable pub cluster_cloud : List (Point R) → List ℕ → List (Point R)
  cluster_cloud cloud [] = []
  cluster_cloud cloud (i ∷ is) =
      let rest = cluster_cloud cloud is in
      elim (get_elem? cloud i) [ none ↦ rest | some q ↦ q ∷ rest ]

module _ {R : Type 0} ⦃p : Platform R⦄ ⦃l : Pcl R⦄ where
  -- The first loop of analyzeClusters: the candidates inside the publishing range.
  unfoldable pub detect_poles : PoleParams R → List (Point R) → List (List ℕ) → List (PoleInfo R)
  unfolding is_position_in_valid_range analyze_pole_candidate cluster_cloud
  detect_poles c cloud [] = []
  detect_poles c cloud (is ∷ clusters) =
      let rest = detect_poles c cloud clusters in
      elim (analyze_pole_candidate c (cluster_cloud cloud is)) [
        | none ↦ rest
        | some pole ↦ if is_position_in_valid_range c pole.x pole.y then pole ∷ rest else rest
      ]
