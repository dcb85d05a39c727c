-- ===== src/Task/Switch.antt =====
-- The flight-state machine: check_emergency_condition(), switch_task() and
-- check_task_switch_conditions().
use text.Mathlib.Text.{◌==◌ as str_eq}
use firt_version_ws.Prelude.{Bool, true, false, not, ◌||◌, if◌then◌else◌, leb, length}
use firt_version_ws.Platform.{Platform, ◌⊖◌, dec, le}
use firt_version_ws.Offboard.State.{Base, FlightState, takeoff, waypoint, tiltland, VehicleState}
use firt_version_ws.Offboard.Services.{arm, engage_offboard_mode, auto_land}
use firt_version_ws.Task.State.{Task}

-- What the services answer in one timer callback: wait_for_service of the mode and of the arming
-- client, and service_is_ready of the arming client.
pub record Services : Type 0 where
  pub set_mode_available : Bool
  pub arming_available : Bool
  pub arming_ready : Bool

abbrev pub is_offboard : VehicleState → Bool
is_offboard v = str_eq v.mode "OFFBOARD"

module _ {R : Type 0} where
  -- A switch to the present state does nothing, which is what the assignment does then.
  unfoldable pub switch_task : FlightState → Task R → Task R
  switch_task new_state t =
      let b = t.base in record t { base = record b { flight_state = new_state } }

  abbrev pub with_base : Task R → Base R → Task R
  with_base t b = record t { base = b }

module _ {R : Type 0} ⦃p : Platform R⦄ where
  unfoldable pub check_emergency_condition : Task R → Bool
  check_emergency_condition t =
      let pos = t.base.local_position.position in
      le (dec 7 0) (p.abs pos.x) || le (dec 7 0) (p.abs pos.y) || le (dec 25 1) (p.abs pos.z)

  -- case INIT
  unfoldable pub leave_init : Services → Task R → Task R × Bool
  unfolding switch_task arm engage_offboard_mode
  leave_init s t =
      let b = t.base in
      if not b.launch_flag
      then (t, false)
      else if not (is_offboard b.current_state)
      then if b.apply_offboard_flag
        then (t, false)
        else (with_base t (engage_offboard_mode s.set_mode_available b), false)
      else if not b.current_state.armed
      then if b.apply_arm_flag then (t, false) else (with_base t (arm s.arming_available b), false)
      else (switch_task takeoff t, true)

  -- The height is within the threshold of the take-off height.
  unfoldable pub at_height : Task R → Bool
  at_height t =
      le (p.abs (t.base.local_position.position.z ⊖ t.takeoff_height)) t.waypoint_threshold

  -- The switch over flight_state_, and whether the state was switched.
  unfoldable pub switch_in : FlightState → Services → Task R → Task R × Bool
  unfolding leave_init switch_task at_height
  switch_in FlightState.init s t = leave_init s t
  switch_in takeoff s t = if at_height t then (switch_task waypoint t, true) else (t, false)
  switch_in waypoint s t =
      if leb (length t.waypoints) t.current_waypoint_index
      then (switch_task tiltland t, true)
      else (t, false)
  switch_in _ s t = (t, false)

  unfoldable pub check_task_switch_conditions : Services → Task R → Task R × Bool
  unfolding switch_in auto_land check_emergency_condition
  check_task_switch_conditions s t =
      if check_emergency_condition t
      then (with_base t (auto_land s.set_mode_available t.base), true)
      else switch_in t.base.flight_state s t
