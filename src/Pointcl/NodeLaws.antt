-- ===== src/Pointcl/NodeLaws.antt =====
-- What the timer of the pole detection publishes, and that it uses a cloud once.
use firt_version_ws.Prelude.{ℕ, suc, ◌+◌, ◌≤◌, Bool, true, false, ◌≡◌, List, [], ◌∷◌, arith, length}
use firt_version_ws.Platform.{Platform}
use firt_version_ws.Offboard.State.{Point}
use firt_version_ws.Pointcl.Pcl.{Pcl}
use firt_version_ws.Pointcl.Detect.{PoleParams}
use firt_version_ws.Pointcl.Node.{
  PoleNode, lidar_callback, process_point_cloud, publish_pole_detection,
}

-- The two callbacks of the node.
pub data PoleEvent (R : Type 0) : Type 0 where
  cloud : List (Point R) → PoleEvent R
  process : PoleEvent R

module _ {R : Type 0} ⦃p : Platform R⦄ ⦃l : Pcl R⦄ where
  unfoldable pub pole_step : PoleParams R → PoleEvent R → PoleNode R → PoleNode R
  unfolding lidar_callback process_point_cloud
  pole_step c (cloud msg) n = lidar_callback msg n
  pole_step c process n = process_point_cloud c n

  unfoldable pub pole_run : PoleParams R → List (PoleEvent R) → PoleNode R → PoleNode R
  pole_run c [] n = n
  pole_run c (e ∷ es) n = pole_run c es (pole_step c e n)

abbrev pub pending : Bool → ℕ
pending false = 0
pending true = 1

module _ {R : Type 0} where
  -- How many clouds are received.
  abbrev pub clouds : List (PoleEvent R) → ℕ
  clouds [] = 0
  clouds (cloud msg ∷ es) = suc (clouds es)
  clouds (process ∷ es) = clouds es

module _ {R : Type 0} ⦃p : Platform R⦄ ⦃l : Pcl R⦄ where
  process-pending :
      (c : PoleParams R) (n : PoleNode R)
      → length (process_point_cloud c n).out + pending (process_point_cloud c n).new_data
        ≤ length n.out + pending n.new_data
  unfolding process_point_cloud publish_pole_detection
  process-pending c n = ground arith

  pole_run-pending :
      (c : PoleParams R) (es : List (PoleEvent R)) (n : PoleNode R)
      → length (pole_run c es n).out ≤ length n.out + pending n.new_data + clouds es
  unfolding pole_run pole_step
  pole_run-pending c [] n = omega arith
  pole_run-pending c (cloud msg ∷ es) n =
      let rest = pole_run-pending c es (lidar_callback msg n) in
      unfold lidar_callback in ground (arith, rest)
  pole_run-pending c (process ∷ es) n =
      omega (arith, process-pending c n, pole_run-pending c es (process_point_cloud c n))

  -- A node that holds no new cloud publishes, over any run, at most as many detections as it receives
  -- clouds: no cloud is used twice.
  pub pole_run-length :
      (c : PoleParams R) (es : List (PoleEvent R)) (n : PoleNode R)
      → n.new_data ≡ false
      → length (pole_run c es n).out ≤ length n.out + clouds es
  pole_run-length c es n old = ground (arith, pole_run-pending c es n)
