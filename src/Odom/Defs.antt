-- ===== src/Odom/Defs.antt =====
-- offboard/src/odom_to_pose_node.cpp: from lidar odometry to the vision pose of the autopilot, with
-- the first ten heights averaged into an offset.
use firt_version_ws.Prelude.{
  ℕ, ◌+◌, Bool, true, false, ◌&&◌, if◌then◌else◌, List, [], ◌∷◌, ltb, ◌==◌,
}
use firt_version_ws.Platform.{Platform, ◌⊕◌, ◌⊖◌, ◌⊘◌, dec}
use firt_version_ws.Offboard.State.{Pose}

-- class OdomToPoseNode. `out` is what it has published, the last first. The float members hold
-- values of `to_float`.
pub record OdomNode (R : Type 0) : Type 0 where
  pub send_data : Pose R
  pub offset : R
  pub lidar_height : R
  pub checktime : ℕ
  pub sum_offset : R
  pub data_ready : Bool
  pub out : List (Pose R)

module _ {R : Type 0} ⦃p : Platform R⦄ where
  unfoldable pub new_node : Pose R → OdomNode R
  new_node blank = record {
    send_data = blank;
    offset = dec 0 0;
    lidar_height = dec 0 0;
    checktime = 0;
    sum_offset = dec 0 0;
    data_ready = false;
    out = [];
  }

  -- The average, taken once, at the eleventh message.
  unfoldable pub average_once : OdomNode R → OdomNode R
  average_once n =
      if n.checktime == 10
      then record n { offset = p.to_float (n.sum_offset ⊘ dec 10 0); checktime = n.checktime + 1 }
      else n

  unfoldable pub radar_cb : Pose R → OdomNode R → OdomNode R
  unfolding average_once
  radar_cb msg n =
      let averaged = average_once n in
      let height = p.to_float (msg.position.z ⊖ averaged.offset) in
      if ltb n.checktime 10
      then record n {
        checktime = n.checktime + 1;
        sum_offset = p.to_float (n.sum_offset ⊕ msg.position.z);
      }
      else record averaged {
        lidar_height = height;
        send_data = record {
          position = record { x = msg.position.x; y = msg.position.y; z = height };
          orientation = msg.orientation;
        };
        data_ready = true;
      }

module _ {R : Type 0} where
  unfoldable pub timer_cb : OdomNode R → OdomNode R
  timer_cb n =
      if n.data_ready && ltb 10 n.checktime then record n { out = n.send_data ∷ n.out } else n

-- The two callbacks, in the order in which the executor runs them.
pub data OdomEvent (R : Type 0) : Type 0 where
  radar : Pose R → OdomEvent R
  tick : OdomEvent R

module _ {R : Type 0} ⦃p : Platform R⦄ where
  unfoldable pub odom_step : OdomEvent R → OdomNode R → OdomNode R
  unfolding radar_cb timer_cb
  odom_step (radar msg) n = radar_cb msg n
  odom_step tick n = timer_cb n

  unfoldable pub odom_run : List (OdomEvent R) → OdomNode R → OdomNode R
  odom_run [] n = n
  odom_run (e ∷ es) n = odom_run es (odom_step e n)
