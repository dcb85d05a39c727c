-- ===== src/Examples/Poles.antt =====
-- The two point-cloud nodes at concrete inputs.
use firt_version_ws.Prelude.{
  ℕ, ◌+◌, Bool, true, false, ◌&&◌, ◌≡◌, refl, Option, some, List, [], ◌∷◌, arith, ℤ, pos, negsuc,
  if◌then◌else◌, ltb_ℤ, Bool-cases, inl, inr,
}
use firt_version_ws.Platform.{le, lt}
use firt_version_ws.Platform.Millis.{millis}
use firt_version_ws.Offboard.State.{Point}
use firt_version_ws.Pointcl.Pcl.{Pcl, PointI, Axis}
use firt_version_ws.Pointcl.Cloud.{CustomMsg, custom_msg_callback}
use firt_version_ws.Pointcl.Detect.{
  PoleInfo, PoleParams, default_params, new_pole, calculate_distance,
}
use firt_version_ws.Pointcl.Track.{
  Tracker, track_poles, match_pole, nearest, nearest_from, distance_between, take_match, pick,
}
use firt_version_ws.Pointcl.Ids.{Rises, track_poles-Rises}
use firt_version_ws.Pointcl.Nearest.{match_pole_nearest}
use firt_version_ws.Pointcl.CloudLaws.{
  field_of, Within, AllIn, FiltersByField, IsFiltered, published_InBox,
}

abbrev filter_by : Axis → ℤ → ℤ → List (PointI ℤ) → List (PointI ℤ)
filter_by axis low high [] = []
filter_by axis low high (q ∷ qs) =
    let rest = filter_by axis low high qs in
    if le low (field_of axis q) && le (field_of axis q) high then q ∷ rest else rest

abbrev corner : (ℤ → ℤ → Bool) → List (Point ℤ) → Point ℤ
corner before [] = record { x = pos 0; y = pos 0; z = pos 0 }
corner before (q ∷ []) = q
corner before (q ∷ r ∷ qs) =
    let rest = corner before (r ∷ qs) in
    record {
      x = if before q.x rest.x then q.x else rest.x;
      y = if before q.y rest.y then q.y else rest.y;
      z = if before q.z rest.z then q.z else rest.z;
    }

abbrev indices : ℕ → List (Point ℤ) → List ℕ
indices n [] = []
indices n (q ∷ qs) = n ∷ indices (n + 1) qs

-- A point-cloud library that filters by field, keeps every voxel, and finds one cluster.
instance abbrev pub simple : Pcl ℤ
simple = record {
  pass_through = filter_by;
  voxel_grid = λ size cloud. cloud;
  min_pt = corner ltb_ℤ;
  max_pt = corner (λ a b. ltb_ℤ b a);
  extract = λ tolerance least most cloud. indices 0 cloud ∷ [];
}

filter_by-Within :
    (axis : Axis) (low high : ℤ) (cloud : List (PointI ℤ))
    → AllIn (Within axis low high) (filter_by axis low high cloud)
filter_by-Within axis low high [] = tt
filter_by-Within axis low high (q ∷ qs) = ground (arith, filter_by-Within axis low high qs)

filter_by-keeps :
    (P : PointI ℤ → Type 0) (axis : Axis) (low high : ℤ) (cloud : List (PointI ℤ))
    → AllIn P cloud
    → AllIn P (filter_by axis low high cloud)
filter_by-keeps P axis low high [] h = tt
filter_by-keeps P axis low high (q ∷ qs) h =
    elim (Bool-cases (le low (field_of axis q) && le (field_of axis q) high)) [
      | inl inside ↦ rw inside (h.0, filter_by-keeps P axis low high qs h.1)
      | inr outside ↦ rw outside (filter_by-keeps P axis low high qs h.1)
    ]

simple-FiltersByField : FiltersByField ℤ
simple-FiltersByField = record { within = filter_by-Within; keeps = filter_by-keeps }

-- Two points inside the box and one behind the sensor.
abbrev message : CustomMsg ℤ
message = record {
  point_num = 3;
  points =
      record { x = pos 1000; y = pos 0; z = pos 0; reflectivity = pos 50000 }
      ∷ record { x = negsuc 499; y = pos 0; z = pos 0; reflectivity = pos 50000 }
      ∷ record { x = pos 1500; y = pos 500; z = pos 500; reflectivity = pos 50000 }
      ∷ [];
}

published_InBox_example :
    (published : Option (List (PointI ℤ))) × (custom_msg_callback message ≡ some published)
    × ((cloud : List (PointI ℤ)) → published ≡ some cloud → IsFiltered simple-FiltersByField cloud)
published_InBox_example = published_InBox simple-FiltersByField message (omega arith)

-- A pole of the list, and two detections near it.
abbrev pole_at : ℕ → ℕ → ℕ → PoleInfo ℤ
unfolding new_pole calculate_distance
pole_at id x y = record (new_pole (pos x) (pos y) (pos 100)) { id = id; is_initialized = true }

abbrev detected : List (PoleInfo ℤ)
unfolding new_pole calculate_distance
detected = pole_at 0 1300 0 ∷ pole_at 0 1100 0 ∷ []

abbrev params : PoleParams ℤ
unfolding default_params
params = default_params

abbrev tracker : Tracker ℤ
unfolding new_pole calculate_distance
tracker = record { pole_list = pole_at 0 1000 0 ∷ pole_at 2 1000 900 ∷ []; pole_num_count = 3 }

track_poles-Rises_example :
    Rises 0
      (track_poles params detected tracker).pole_list
      (track_poles params detected tracker).pole_num_count
unfolding new_pole calculate_distance default_params
track_poles-Rises_example = track_poles-Rises params detected tracker (ground arith)

lt_trans : (a b c : ℤ) → ltb_ℤ a b ≡ true → ltb_ℤ b c ≡ true → ltb_ℤ a c ≡ true
lt_trans a b c h k = ground arith

match_pole_nearest_example :
    lt
      (distance_between (pole_at 0 1000 0) (pole_at 0 1300 0))
      (distance_between (pole_at 0 1000 0) (pole_at 0 1100 0))
    ≡ false
unfolding new_pole calculate_distance default_params match_pole nearest nearest_from
    distance_between take_match pick
match_pole_nearest_example =
    match_pole_nearest lt_trans params (pole_at 0 1000 0) detected 1 (pole_at 0 1100 0) refl 0
      (pole_at 0 1300 0) refl refl refl
