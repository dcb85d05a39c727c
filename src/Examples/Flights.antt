-- ===== src/Examples/Flights.antt =====
-- Short flights in thousandths: the state machine, the waypoints, the requests.
use firt_version_ws.Prelude.{
  ℕ, ◌+◌, ◌≤◌, ◌<◌, true, ◌≡◌, refl, none, some, List, [], ◌∷◌, ◌++◌, arith, ℤ, pos,
}
use firt_version_ws.Platform.Millis.{millis}
use firt_version_ws.Offboard.State.{FlightState, takeoff, waypoint, new_base, default_hover_config}
use firt_version_ws.Offboard.Setpoints.{
  follow, publish_position_setpoint_trajectory, segment, publish_velocity_body,
  publish_position_setpoint, track, body_x, body_y, distance_to_target, wrap_down, wrap_up,
  wrap_angle,
}
use firt_version_ws.Offboard.Angles.{millis_turns}
use firt_version_ws.Offboard.Services.{
  auto_land, task_state_pub, arm, engage_offboard_mode, flight_state_to_string, launch_callback,
  vehicle_state_callback,
}
use firt_version_ws.Task.State.{Task, new_task, waypoint_generate}
use firt_version_ws.Task.Stuck.{
  check_position_stuck_protection, reset_position_stuck_detection, detect_stuck, position_change,
  stop_ignoring,
}
use firt_version_ws.Task.Mission.{
  Readings, fly_to, execute_waypoint_mission, advance, line_start, is_at_point,
}
use firt_version_ws.Task.TiltLand.{
  tilt_land, descend, approach_line, off_line, horizontal_distance, descent_speed_horizontal,
}
use firt_version_ws.Task.Switch.{
  Services, check_task_switch_conditions, switch_in, switch_task, leave_init, at_height,
  check_emergency_condition,
}
use firt_version_ws.Task.Tick.{
  Event, timer, launch, act_in, fly, timer_callback, handle, run, warm_up, finish_tilt_land,
}
use firt_version_ws.Task.Phases.{rank, state_of, Passes, run-⟶}
use firt_version_ws.Task.Authorised.{IsAuthorised, handle-IsAuthorised}
use firt_version_ws.Task.Landing.{run_lands}
use firt_version_ws.Task.Waypoints.{Visited, run-Visited}
use firt_version_ws.Task.Requests.{run_requests, arm_replies, set_mode_replies}
use firt_version_ws.Task.WarmUp.{run_warm_up, homes}
use firt_version_ws.Task.Output.{arm_requests, offboard_requests}
use firt_version_ws.Task.Total.{timer_callback_total}

abbrev pub all_ready : Services
all_ready = record { set_mode_available = true; arming_available = true; arming_ready = true }

abbrev pub clocks : ℕ → Readings
clocks now = record { now_stuck = now; now_cross = now; now_reset = now }

abbrev pub tick : ℕ → Event ℤ
tick now = timer all_ready (clocks now)

-- At the origin, which is the only waypoint, after a descent.
abbrev pub start : FlightState → Task ℤ
start state =
    let base = new_base (pos 1000) (pos 500) 0 in
    record (new_task (record base { flight_state = state }) (pos 1000) (pos 100)) {
      waypoints = record { x = pos 0; y = pos 0; z = pos 0; yaw = pos 0 } ∷ [];
      last_position_z = pos 1000;
      setpoint_ready = true;
    }

abbrev mission : List (Event ℤ)
mission = tick 1000000000 ∷ tick 1020000000 ∷ []

run_lands_example : Visited 3 0 mission (start waypoint)
unfolding run handle timer_callback fly act_in check_task_switch_conditions switch_in leave_init
    at_height check_emergency_condition switch_task execute_waypoint_mission fly_to advance
    line_start is_at_point check_position_stuck_protection reset_position_stuck_detection
    detect_stuck position_change stop_ignoring publish_position_setpoint_trajectory follow segment
    track body_x body_y wrap_down wrap_up wrap_angle distance_to_target publish_velocity_body
    task_state_pub publish_position_setpoint warm_up finish_tilt_land tilt_land descend
    approach_line off_line horizontal_distance descent_speed_horizontal launch_callback
    vehicle_state_callback arm engage_offboard_mode auto_land new_task new_base default_hover_config
    waypoint_generate flight_state_to_string
run_lands_example = run_lands 3 mission (start waypoint) refl refl refl refl 0 (omega arith)

run-Visited_example : Visited 3 0 mission (start waypoint)
unfolding run handle timer_callback fly act_in check_task_switch_conditions switch_in leave_init
    at_height check_emergency_condition switch_task execute_waypoint_mission fly_to advance
    line_start is_at_point check_position_stuck_protection reset_position_stuck_detection
    detect_stuck position_change stop_ignoring publish_position_setpoint_trajectory follow segment
    track body_x body_y wrap_down wrap_up wrap_angle distance_to_target publish_velocity_body
    task_state_pub publish_position_setpoint warm_up finish_tilt_land tilt_land descend
    approach_line off_line horizontal_distance descent_speed_horizontal launch_callback
    vehicle_state_callback arm engage_offboard_mode auto_land new_task new_base default_hover_config
    waypoint_generate flight_state_to_string
run-Visited_example = run-Visited 3 0 mission (start waypoint) refl (omega arith) (omega arith)

-- In OFFBOARD mode, armed, with the launch flag.
abbrev armed_start : Task ℤ
armed_start =
    let t = start FlightState.init in
    record t {
      base = record (t.base) {
        launch_flag = true;
        current_state = record { armed = true; mode = "OFFBOARD" };
      };
    }

handle-IsAuthorised_example : IsAuthorised armed_start
unfolding run handle timer_callback fly act_in check_task_switch_conditions switch_in leave_init
    at_height check_emergency_condition switch_task execute_waypoint_mission fly_to advance
    line_start is_at_point check_position_stuck_protection reset_position_stuck_detection
    detect_stuck position_change stop_ignoring publish_position_setpoint_trajectory follow segment
    track body_x body_y wrap_down wrap_up wrap_angle distance_to_target publish_velocity_body
    task_state_pub publish_position_setpoint warm_up finish_tilt_land tilt_land descend
    approach_line off_line horizontal_distance descent_speed_horizontal launch_callback
    vehicle_state_callback arm engage_offboard_mode auto_land new_task new_base default_hover_config
    waypoint_generate flight_state_to_string
handle-IsAuthorised_example =
    handle-IsAuthorised 3 (tick 1000000000) armed_start refl refl (ground arith)

-- From TAKEOFF at the take-off height.
abbrev climbing : Task ℤ
climbing = record (start takeoff) { takeoff_height = pos 0 }

abbrev landed_state : Task ℤ
unfolding run handle timer_callback fly act_in check_task_switch_conditions switch_in leave_init
    at_height check_emergency_condition switch_task execute_waypoint_mission fly_to advance
    line_start is_at_point check_position_stuck_protection reset_position_stuck_detection
    detect_stuck position_change stop_ignoring publish_position_setpoint_trajectory follow segment
    track body_x body_y wrap_down wrap_up wrap_angle distance_to_target publish_velocity_body
    task_state_pub publish_position_setpoint warm_up finish_tilt_land tilt_land descend
    approach_line off_line horizontal_distance descent_speed_horizontal launch_callback
    vehicle_state_callback arm engage_offboard_mode auto_land new_task new_base default_hover_config
    waypoint_generate flight_state_to_string
landed_state = elim (run 3 (tick 1000000000 ∷ mission) climbing) [ none ↦ climbing | some u ↦ u ]

run-⟶_example :
    (1 ≤ rank (state_of landed_state))
    × ((k : ℕ)
        → k < 3
        → 1 < k
        → k < rank (state_of landed_state)
        → Passes 3 (tick 1000000000 ∷ mission) climbing k)
    × (rank (state_of landed_state) ≡ 5 → rank (state_of climbing) ≡ 5)
unfolding run handle timer_callback fly act_in check_task_switch_conditions switch_in leave_init
    at_height check_emergency_condition switch_task execute_waypoint_mission fly_to advance
    line_start is_at_point check_position_stuck_protection reset_position_stuck_detection
    detect_stuck position_change stop_ignoring publish_position_setpoint_trajectory follow segment
    track body_x body_y wrap_down wrap_up wrap_angle distance_to_target publish_velocity_body
    task_state_pub publish_position_setpoint warm_up finish_tilt_land tilt_land descend
    approach_line off_line horizontal_distance descent_speed_horizontal launch_callback
    vehicle_state_callback arm engage_offboard_mode auto_land new_task new_base default_hover_config
    waypoint_generate flight_state_to_string
run-⟶_example = run-⟶ 3 (tick 1000000000 ∷ mission) climbing {u = landed_state} refl

climbing_lands : rank (state_of landed_state) ≡ 4
unfolding run handle timer_callback fly act_in check_task_switch_conditions switch_in leave_init
    at_height check_emergency_condition switch_task execute_waypoint_mission fly_to advance
    line_start is_at_point check_position_stuck_protection reset_position_stuck_detection
    detect_stuck position_change stop_ignoring publish_position_setpoint_trajectory follow segment
    track body_x body_y wrap_down wrap_up wrap_angle distance_to_target publish_velocity_body
    task_state_pub publish_position_setpoint warm_up finish_tilt_land tilt_land descend
    approach_line off_line horizontal_distance descent_speed_horizontal launch_callback
    vehicle_state_callback arm engage_offboard_mode auto_land new_task new_base default_hover_config
    waypoint_generate flight_state_to_string firt_version_ws.Offboard.Services.land
climbing_lands = refl

-- One tick in INIT after the launch flag.
abbrev launching : List (Event ℤ)
launching = launch true ∷ tick 1000000000 ∷ []

-- From INIT, with no request out.
abbrev disarmed_start : Task ℤ
disarmed_start = start FlightState.init

abbrev launched_state : Task ℤ
unfolding run handle timer_callback fly act_in check_task_switch_conditions switch_in leave_init
    at_height check_emergency_condition switch_task execute_waypoint_mission fly_to advance
    line_start is_at_point check_position_stuck_protection reset_position_stuck_detection
    detect_stuck position_change stop_ignoring publish_position_setpoint_trajectory follow segment
    track body_x body_y wrap_down wrap_up wrap_angle distance_to_target publish_velocity_body
    task_state_pub publish_position_setpoint warm_up finish_tilt_land tilt_land descend
    approach_line off_line horizontal_distance descent_speed_horizontal launch_callback
    vehicle_state_callback arm engage_offboard_mode auto_land new_task new_base default_hover_config
    waypoint_generate flight_state_to_string
launched_state = elim (run 3 launching disarmed_start) [ none ↦ disarmed_start | some u ↦ u ]

run_requests_example :
    (arm_requests launched_state.base.out ≤ arm_replies launching + 1)
    × (offboard_requests launched_state.base.out ≤ set_mode_replies launching + 1)
unfolding run handle timer_callback fly act_in check_task_switch_conditions switch_in leave_init
    at_height check_emergency_condition switch_task execute_waypoint_mission fly_to advance
    line_start is_at_point check_position_stuck_protection reset_position_stuck_detection
    detect_stuck position_change stop_ignoring publish_position_setpoint_trajectory follow segment
    track body_x body_y wrap_down wrap_up wrap_angle distance_to_target publish_velocity_body
    task_state_pub publish_position_setpoint warm_up finish_tilt_land tilt_land descend
    approach_line off_line horizontal_distance descent_speed_horizontal launch_callback
    vehicle_state_callback arm engage_offboard_mode auto_land new_task new_base default_hover_config
    waypoint_generate flight_state_to_string
run_requests_example = run_requests 3 launching disarmed_start {u = launched_state} refl refl

-- A new node, whose timer runs twice.
abbrev new_start : Task ℤ
new_start = new_task (new_base (pos 1000) (pos 500) 0) (pos 1000) (pos 100)

abbrev warmed_state : Task ℤ
unfolding run handle timer_callback fly act_in check_task_switch_conditions switch_in leave_init
    at_height check_emergency_condition switch_task execute_waypoint_mission fly_to advance
    line_start is_at_point check_position_stuck_protection reset_position_stuck_detection
    detect_stuck position_change stop_ignoring publish_position_setpoint_trajectory follow segment
    track body_x body_y wrap_down wrap_up wrap_angle distance_to_target publish_velocity_body
    task_state_pub publish_position_setpoint warm_up finish_tilt_land tilt_land descend
    approach_line off_line horizontal_distance descent_speed_horizontal launch_callback
    vehicle_state_callback arm engage_offboard_mode auto_land new_task new_base default_hover_config
    waypoint_generate flight_state_to_string
warmed_state = elim (run 3 (launching ++ mission) new_start) [ none ↦ new_start | some u ↦ u ]

run_warm_up_example :
    (warmed_state.base.out ≡ homes 3 []) × (warmed_state.base.flight_state ≡ FlightState.init)
unfolding run handle timer_callback fly act_in check_task_switch_conditions switch_in leave_init
    at_height check_emergency_condition switch_task execute_waypoint_mission fly_to advance
    line_start is_at_point check_position_stuck_protection reset_position_stuck_detection
    detect_stuck position_change stop_ignoring publish_position_setpoint_trajectory follow segment
    track body_x body_y wrap_down wrap_up wrap_angle distance_to_target publish_velocity_body
    task_state_pub publish_position_setpoint warm_up finish_tilt_land tilt_land descend
    approach_line off_line horizontal_distance descent_speed_horizontal launch_callback
    vehicle_state_callback arm engage_offboard_mode auto_land new_task new_base default_hover_config
    waypoint_generate flight_state_to_string
run_warm_up_example =
    run_warm_up 3 (launching ++ mission) new_start {u = warmed_state} refl refl (omega arith) refl

-- A waypoint whose heading is more than a turn away.
abbrev turned_start : Task ℤ
turned_start = record (start waypoint) {
  waypoints = record { x = pos 3000; y = pos 0; z = pos 0; yaw = pos 7000 } ∷ [];
}

timer_callback_total_example :
    (u : Task ℤ) × (timer_callback 8000 all_ready (clocks 1000000000) turned_start ≡ some u)
unfolding run handle timer_callback fly act_in check_task_switch_conditions switch_in leave_init
    at_height check_emergency_condition switch_task execute_waypoint_mission fly_to advance
    line_start is_at_point check_position_stuck_protection reset_position_stuck_detection
    detect_stuck position_change stop_ignoring publish_position_setpoint_trajectory follow segment
    track body_x body_y wrap_down wrap_up wrap_angle distance_to_target publish_velocity_body
    task_state_pub publish_position_setpoint warm_up finish_tilt_land tilt_land descend
    approach_line off_line horizontal_distance descent_speed_horizontal launch_callback
    vehicle_state_callback arm engage_offboard_mode auto_land new_task new_base default_hover_config
    waypoint_generate flight_state_to_string
timer_callback_total_example =
    timer_callback_total millis_turns 8000 all_ready (clocks 1000000000) turned_start
      (omega arith, tt)
