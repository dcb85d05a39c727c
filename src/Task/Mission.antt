-- ===== src/Task/Mission.antt =====
-- Waypoint flight: is_at_point() and execute_waypoint_mission().
use firt_version_ws.Prelude.{
  ℕ, zero, suc, ◌+◌, Bool, if◌then◌else◌, Option, none, some, ◌>>=◌, get_elem?, get_or,
}
use firt_version_ws.Platform.{Platform, dec, lt}
use firt_version_ws.Offboard.State.{Point}
use firt_version_ws.Offboard.Setpoints.{distance_to_target, publish_position_setpoint_trajectory}
use firt_version_ws.Task.State.{Task, Waypoint}
use firt_version_ws.Task.Stuck.{check_position_stuck_protection, reset_position_stuck_detection}

-- The clock readings of one timer callback, in the order in which the code takes them.
pub record Readings : Type 0 where
  pub now_stuck : ℕ
  pub now_cross : ℕ
  pub now_reset : ℕ

module _ {R : Type 0} ⦃p : Platform R⦄ where
  unfoldable pub is_at_point : R → R → R → Task R → Bool
  unfolding distance_to_target
  is_at_point x y z t = lt (distance_to_target x y z t.base) t.waypoint_threshold

  -- The start of the line to the waypoint at the index; the default of the look-up is never taken,
  -- since the index is in range.
  unfoldable pub line_start : ℕ → Waypoint R → Task R → Point R
  line_start zero current t = record { x = dec 0 0; y = dec 0 0; z = t.takeoff_height }
  line_start (suc i) current t =
      let previous = get_or t.waypoints i current in
      record { x = previous.x; y = previous.y; z = previous.z }

  -- The end of execute_waypoint_mission(): on to the next waypoint when this one is reached.
  unfoldable pub advance : ℕ → Waypoint R → Task R → Task R
  advance now current t =
      if is_at_point current.x current.y current.z t
      then reset_position_stuck_detection now
          (record t { current_waypoint_index = t.current_waypoint_index + 1 })
      else t

  -- The body below the range check.
  unfoldable pub fly_to : ℕ → Readings → Waypoint R → Task R → Option (Task R)
  unfolding advance line_start
  fly_to fuel r current t =
      let checked = check_position_stuck_protection r.now_stuck t in
      let start = line_start checked.current_waypoint_index current checked in
      let end : Point R = record { x = current.x; y = current.y; z = current.z } in
      do
        b ← publish_position_setpoint_trajectory fuel r.now_cross start end current.yaw checked.base
        some (advance r.now_reset current (record checked { base = b }))

  -- `current_waypoint_index_ >= waypoints_.size()` is the look-up that finds nothing.
  unfoldable pub execute_waypoint_mission : ℕ → Readings → Task R → Option (Task R)
  execute_waypoint_mission fuel r t = elim (get_elem? t.waypoints t.current_waypoint_index) [
    | none ↦ some t
    | some current ↦ fly_to fuel r current t
  ]
