-- ===== src/Pointcl/Node.antt =====
-- pointcl/src/pole_detection.cpp, the node: its two callbacks and what it publishes.
use firt_version_ws.Prelude.{ℕ, Bool, true, false, not, ◌||◌, if◌then◌else◌, List, ◌∷◌, map}
use firt_version_ws.Platform.{Platform}
use firt_version_ws.Offboard.State.{Point}
use firt_version_ws.Pointcl.Pcl.{Pcl}
use firt_version_ws.Pointcl.Cloud.{is_empty}
use firt_version_ws.Pointcl.Detect.{PoleInfo, PoleParams, detect_poles}
use firt_version_ws.Pointcl.Track.{Tracker, track_poles}

-- msg_tool/Pole
pub record PoleMsg (R : Type 0) : Type 0 where
  pub id : ℕ
  pub x : R
  pub y : R
  pub detected : Bool
  pub distance : R
  pub diameter : R

pub record PoleNode (R : Type 0) : Type 0 where
  pub tracker : Tracker R
  pub cloud : List (Point R)
  pub new_data : Bool
  pub out : List (List (PoleMsg R))

module _ {R : Type 0} where
  unfoldable pub pole_msg : PoleInfo R → PoleMsg R
  pole_msg i = record {
    id = i.id;
    x = i.x;
    y = i.y;
    detected = i.detected;
    distance = i.distance;
    diameter = i.diameter;
  }

  unfoldable pub publish_pole_detection : PoleNode R → PoleNode R
  unfolding pole_msg
  publish_pole_detection n = record n { out = map pole_msg n.tracker.pole_list ∷ n.out }

  unfoldable pub lidar_callback : List (Point R) → PoleNode R → PoleNode R
  lidar_callback msg n = record n { cloud = msg; new_data = true }

module _ {R : Type 0} ⦃p : Platform R⦄ ⦃l : Pcl R⦄ where
  unfoldable pub perform_clustering : PoleParams R → List (Point R) → List (List ℕ)
  perform_clustering c cloud =
      l.extract c.cluster_tolerance c.min_cluster_size c.max_cluster_size cloud

  unfoldable pub analyze_clusters :
      PoleParams R → List (Point R) → List (List ℕ) → Tracker R → Tracker R
  unfolding detect_poles track_poles
  analyze_clusters c cloud clusters t = track_poles c (detect_poles c cloud clusters) t

  unfoldable pub process_point_cloud : PoleParams R → PoleNode R → PoleNode R
  unfolding perform_clustering analyze_clusters publish_pole_detection
  process_point_cloud c n =
      let tracked = analyze_clusters c n.cloud (perform_clustering c n.cloud) n.tracker in
      if not n.new_data || is_empty n.cloud
      then n
      else publish_pole_detection (record n { new_data = false; tracker = tracked })
