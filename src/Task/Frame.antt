-- ===== src/Task/Frame.antt =====
-- What the parts of a timer callback leave alone.
use firt_version_ws.Prelude.{ℕ, ◌≡◌, some, arith, Option-cases, inl, inr, get_elem?}
use firt_version_ws.Platform.{Platform}
use firt_version_ws.Offboard.State.{Base, Point}
use firt_version_ws.Offboard.Setpoints.{
  TrajectorySegment, follow, publish_position_setpoint_trajectory, segment,
}
use firt_version_ws.Task.State.{Task, Waypoint}
use firt_version_ws.Task.Stuck.{check_position_stuck_protection, reset_position_stuck_detection}
use firt_version_ws.Task.Mission.{Readings, advance, fly_to, execute_waypoint_mission, line_start}

-- The fields that decide the flight state.
pub record SameControl {R : Type 0} (b c : Base R) : Type 0 where
  pub flight_state : c.flight_state ≡ b.flight_state
  pub offboard_flag : c.apply_offboard_flag ≡ b.apply_offboard_flag
  pub arm_flag : c.apply_arm_flag ≡ b.apply_arm_flag
  pub disarm_flag : c.apply_disarm_flag ≡ b.apply_disarm_flag
  pub angular : c.max_angular_velocity ≡ b.max_angular_velocity
  pub position : c.local_position ≡ b.local_position

pub record SameMission {R : Type 0} (t u : Task R) : Type 0 where
  pub control : SameControl t.base u.base
  pub waypoints : u.waypoints ≡ t.waypoints
  pub ready : u.setpoint_ready ≡ t.setpoint_ready
  pub counter : u.offboard_setpoint_counter ≡ t.offboard_setpoint_counter
  pub threshold : u.waypoint_threshold ≡ t.waypoint_threshold

module _ {R : Type 0} ⦃p : Platform R⦄ where
  pub follow-SameControl :
      (fuel now : ℕ) (s : TrajectorySegment R) (target : R) (b : Base R) {c : Base R}
      → follow fuel now s target b ≡ some c
      → SameControl b c
  unfolding follow
  follow-SameControl fuel now s target b h = ground arith

  pub trajectory-SameControl :
      (fuel now : ℕ) (start end : Point R) (target : R) (b : Base R) {c : Base R}
      → publish_position_setpoint_trajectory fuel now start end target b ≡ some c
      → SameControl b c
  unfolding publish_position_setpoint_trajectory
  trajectory-SameControl fuel now start end target b {c} h =
      ground (arith, follow-SameControl fuel now (segment start end) target b {c = c})

  pub stuck-SameMission :
      (now : ℕ) (t : Task R) → SameMission t (check_position_stuck_protection now t)
  unfolding check_position_stuck_protection
  stuck-SameMission now t = ground arith

  pub advance-SameMission :
      (now : ℕ) (w : Waypoint R) (t : Task R) → SameMission t (advance now w t)
  unfolding advance reset_position_stuck_detection
  advance-SameMission now w t = ground arith

  pub SameMission-trans : (t u v : Task R) → SameMission t u → SameMission u v → SameMission t v
  SameMission-trans t u v h k = ground arith

  pub fly_to-SameMission :
      (fuel : ℕ) (r : Readings) (w : Waypoint R) (t : Task R) {u : Task R}
      → fly_to fuel r w t ≡ some u
      → SameMission t u
  unfolding fly_to
  fly_to-SameMission fuel r w t {u} h =
      let checked = check_position_stuck_protection r.now_stuck t in
      let start = line_start checked.current_waypoint_index w checked in
      let end : Point R = record { x = w.x; y = w.y; z = w.z } in
      let sent =
        publish_position_setpoint_trajectory fuel r.now_cross start end w.yaw checked.base in
      elim (Option-cases sent) [
        | inl e ↦ absurd (ground (arith, e))
        | inr (b, e) ↦ ground (
          arith,
          e,
          stuck-SameMission r.now_stuck t,
          trajectory-SameControl fuel r.now_cross start end w.yaw checked.base {c = b},
          advance-SameMission r.now_reset w (record checked { base = b }),
        )
      ]

  pub mission-SameMission :
      (fuel : ℕ) (r : Readings) (t : Task R) {u : Task R}
      → execute_waypoint_mission fuel r t ≡ some u
      → SameMission t u
  unfolding execute_waypoint_mission
  mission-SameMission fuel r t {u} h =
      elim (Option-cases (get_elem? t.waypoints t.current_waypoint_index)) [
        | inl e ↦ ground arith
        | inr (w, e) ↦ ground (arith, fly_to-SameMission fuel r w t {u = u})
      ]
