-- ===== src/Examples/Spins.antt =====
-- The handlers of preprocess.cpp for PointCloud2 messages at concrete inputs.
use firt_version_ws.Prelude.{none, ℕ, ◌*◌, ◌≡◌, refl, List, [], ◌∷◌, All, ℤ, pos, negsuc, map}
use firt_version_ws.Platform.Millis.{millis}
use firt_version_ws.FastLio.Preprocess.{PointType, Preprocess}
use firt_version_ws.FastLio.Clouds.{mid360_handler}
use firt_version_ws.FastLio.Spinning.{
  Features, OusterPoint, VelodynePoint, us, velodyne_handler, process_cloud,
}
use firt_version_ws.FastLio.Spinning.Laws.{as_livox, velodyne_handler-mid360_handler}
use firt_version_ws.FastLio.Spinning.Blind.{Far, process_cloud-Far}
use firt_version_ws.Examples.Scans.{millis-IsOrder, preprocess}

abbrev spun : ℕ → ℤ → VelodynePoint ℤ
spun ring x = record {
  x = x;
  y = pos 1000;
  z = pos 0;
  intensity = pos 9;
  time = pos 0;
  ring = ring;
}

abbrev no_features : Features ℤ
no_features = record { oust64 = λ s scale points. none; velodyne = λ s scale points. none }

abbrev every_point : Preprocess ℤ
every_point = record preprocess { point_filter_num = 1; lidar_type = 3 }

velodyne_handler-mid360_handler_example :
    velodyne_handler
      (λ y x. x)
      no_features
      (λ n. pos (n * 1000))
      every_point
      (pos 1)
      (spun 0 (pos 10) ∷ spun 0 (pos 20) ∷ spun 1 (pos 5) ∷ spun 0 (negsuc 4) ∷ [])
    ≡ mid360_handler
        (λ y x. x)
        (λ n. pos (n * 1000))
        every_point
        (map as_livox (spun 0 (pos 10) ∷ spun 0 (pos 20) ∷ spun 1 (pos 5) ∷ spun 0 (negsuc 4) ∷ []))
velodyne_handler-mid360_handler_example =
    velodyne_handler-mid360_handler (λ y x. x) no_features (λ n. pos (n * 1000)) every_point (pos 1)
      (spun 0 (pos 10)) (spun 0 (pos 20) ∷ spun 1 (pos 5) ∷ spun 0 (negsuc 4) ∷ []) refl refl refl

abbrev ouster : ℕ → OusterPoint ℤ
ouster x = record { x = pos x; y = pos 0; z = pos 0; intensity = pos 9; t = 5000 }

-- What becomes of it: 5000 microseconds are 5 milliseconds.
abbrev seen : ℕ → PointType ℤ
seen x = record { x = pos x; y = pos 0; z = pos 0; intensity = pos 9; curvature = pos 5000 }

-- The message is its points.
abbrev ouster_message : List (OusterPoint ℤ)
ouster_message = ouster 2000 ∷ ouster 100 ∷ ouster 3000 ∷ []

abbrev no_points : {A : Type 0} → List (OusterPoint ℤ) → List A
no_points msg = []

process_cloud-Far_example : All (Far every_point) (seen 2000 ∷ seen 3000 ∷ [])
unfolding process_cloud
process_cloud-Far_example =
    process_cloud-Far no_features (λ y x. x) (λ n. pos (n * 1000)) (λ m. m) no_points no_points
      no_points millis-IsOrder every_point us ouster_message (seen 2000 ∷ seen 3000 ∷ []) refl refl
