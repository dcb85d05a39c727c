-- ===== src/Examples/Streams.antt =====
-- Single callbacks in thousandths: the setpoints; and the protection.
use firt_version_ws.Prelude.{ℕ, true, ◌≡◌, refl, none, some, [], ◌∷◌, ℤ, pos}
use firt_version_ws.Platform.{dec, le}
use firt_version_ws.Platform.Millis.{millis}
use firt_version_ws.Offboard.State.{
  Point, FlightState, waypoint, tiltland, new_base, default_hover_config,
}
use firt_version_ws.Offboard.Setpoints.{
  follow, publish_position_setpoint_trajectory, segment, publish_velocity_body,
  publish_position_setpoint, track, body_x, body_y, distance_to_target, wrap_down, wrap_up,
  wrap_angle,
}
use firt_version_ws.Offboard.Services.{
  auto_land, task_state_pub, arm, engage_offboard_mode, flight_state_to_string, launch_callback,
  vehicle_state_callback,
}
use firt_version_ws.Task.State.{Task, new_task, waypoint_generate}
use firt_version_ws.Task.Stuck.{
  check_position_stuck_protection, reset_position_stuck_detection, detect_stuck, position_change,
  stop_ignoring,
}
use firt_version_ws.Task.Mission.{
  fly_to, execute_waypoint_mission, advance, line_start, is_at_point,
}
use firt_version_ws.Task.TiltLand.{
  tilt_land, descend, approach_line, off_line, horizontal_distance, descent_speed_horizontal,
}
use firt_version_ws.Task.Switch.{
  check_task_switch_conditions, switch_in, switch_task, leave_init, at_height,
  check_emergency_condition,
}
use firt_version_ws.Task.Tick.{act_in, fly, timer_callback, handle, run, warm_up, finish_tilt_land}
use firt_version_ws.Task.StuckLaws.{check, asked, StillSince, asked-StillSince}
use firt_version_ws.Task.Output.{setpoints, IsLimit, AllTurnWithin}
use firt_version_ws.Task.Streaming.{fly-setpoints, run-AllTurnWithin}
use firt_version_ws.Examples.Flights.{all_ready, clocks, tick, start}

-- At 0.5 above the origin, descending.
abbrev high_start : FlightState → Task ℤ
high_start state =
    let t = start state in
    record t {
      stage1_completed = true;
      base = record (t.base) {
        local_position = record {
          position = record { x = pos 0; y = pos 0; z = pos 500 };
          orientation = t.base.local_position.orientation;
        };
      };
    }

abbrev descended_state : Task ℤ
unfolding run handle timer_callback fly act_in check_task_switch_conditions switch_in leave_init
    at_height check_emergency_condition switch_task execute_waypoint_mission fly_to advance
    line_start is_at_point check_position_stuck_protection reset_position_stuck_detection
    detect_stuck position_change stop_ignoring publish_position_setpoint_trajectory follow segment
    track body_x body_y wrap_down wrap_up wrap_angle distance_to_target publish_velocity_body
    task_state_pub publish_position_setpoint warm_up finish_tilt_land tilt_land descend
    approach_line off_line horizontal_distance descent_speed_horizontal launch_callback
    vehicle_state_callback arm engage_offboard_mode auto_land new_task new_base default_hover_config
    waypoint_generate flight_state_to_string
descended_state = elim (fly 3 all_ready (clocks 1000000000) (high_start tiltland)) [
  | none ↦ high_start tiltland
  | some u ↦ u
]

fly-setpoints_example : setpoints descended_state.base.out ≡ 1
unfolding run handle timer_callback fly act_in check_task_switch_conditions switch_in leave_init
    at_height check_emergency_condition switch_task execute_waypoint_mission fly_to advance
    line_start is_at_point check_position_stuck_protection reset_position_stuck_detection
    detect_stuck position_change stop_ignoring publish_position_setpoint_trajectory follow segment
    track body_x body_y wrap_down wrap_up wrap_angle distance_to_target publish_velocity_body
    task_state_pub publish_position_setpoint warm_up finish_tilt_land tilt_land descend
    approach_line off_line horizontal_distance descent_speed_horizontal launch_callback
    vehicle_state_callback arm engage_offboard_mode auto_land new_task new_base default_hover_config
    waypoint_generate flight_state_to_string
fly-setpoints_example =
    fly-setpoints 3 all_ready (clocks 1000000000) (high_start tiltland) {u = descended_state} refl
      refl

abbrev touched_state : Task ℤ
unfolding run handle timer_callback fly act_in check_task_switch_conditions switch_in leave_init
    at_height check_emergency_condition switch_task execute_waypoint_mission fly_to advance
    line_start is_at_point check_position_stuck_protection reset_position_stuck_detection
    detect_stuck position_change stop_ignoring publish_position_setpoint_trajectory follow segment
    track body_x body_y wrap_down wrap_up wrap_angle distance_to_target publish_velocity_body
    task_state_pub publish_position_setpoint warm_up finish_tilt_land tilt_land descend
    approach_line off_line horizontal_distance descent_speed_horizontal launch_callback
    vehicle_state_callback arm engage_offboard_mode auto_land new_task new_base default_hover_config
    waypoint_generate flight_state_to_string
touched_state = elim (act_in tiltland 3 all_ready (clocks 1000000000) (start tiltland)) [
  | none ↦ start tiltland
  | some u ↦ u
]

run-AllTurnWithin_example :
    let u = descended_state in
    IsLimit u.base.max_angular_velocity × AllTurnWithin u.base.max_angular_velocity u.base.out
unfolding run handle timer_callback fly act_in check_task_switch_conditions switch_in leave_init
    at_height check_emergency_condition switch_task execute_waypoint_mission fly_to advance
    line_start is_at_point check_position_stuck_protection reset_position_stuck_detection
    detect_stuck position_change stop_ignoring publish_position_setpoint_trajectory follow segment
    track body_x body_y wrap_down wrap_up wrap_angle distance_to_target publish_velocity_body
    task_state_pub publish_position_setpoint warm_up finish_tilt_land tilt_land descend
    approach_line off_line horizontal_distance descent_speed_horizontal launch_callback
    vehicle_state_callback arm engage_offboard_mode auto_land new_task new_base default_hover_config
    waypoint_generate flight_state_to_string
run-AllTurnWithin_example =
    run-AllTurnWithin 3 (tick 1000000000 ∷ []) (high_start tiltland) {u = descended_state}
      (record { low = refl; high = refl; ordered = refl }) tt refl

-- A check after four seconds, and one after nine, in one place.
abbrev place : ℕ → Point ℤ
place x = record { x = pos x; y = pos 0; z = pos 0 }

asked-StillSince_example :
    (time : ℕ) × (q : Point ℤ) × StillSince
      (pos 100)
      1_000_000_000
      (place 0)
      time
      q
      (check 10_000_000_000 (place 50) ∷ check 5_000_000_000 (place 20) ∷ [])
    × (le (dec 8 0) (millis.seconds 10_000_000_000 time) ≡ true)
    × ((asked (start waypoint) 1_000_000_000 (place 0) (
          check 10_000_000_000 (place 50)
          ∷ check 5_000_000_000 (place 20)
          ∷ [])).ignore_target_until
        ≡ 11_000_000_000)
unfolding check_position_stuck_protection detect_stuck position_change stop_ignoring
    reset_position_stuck_detection new_task new_base default_hover_config waypoint_generate
asked-StillSince_example =
    asked-StillSince (start waypoint) 1_000_000_000 (place 0) (check 5_000_000_000 (place 20) ∷ [])
      10_000_000_000 (place 50) refl refl
