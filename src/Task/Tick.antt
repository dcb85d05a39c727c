-- ===== src/Task/Tick.antt =====
-- The timer callback of the mission node, and the node as a system that handles events.
use firt_version_ws.Prelude.{
  ℕ, ◌+◌, Bool, if◌then◌else◌, Option, some, ◌>>=◌, List, [], ◌∷◌, ltb, ℤ,
}
use firt_version_ws.Platform.{Platform, dec}
use firt_version_ws.Offboard.State.{
  FlightState, takeoff, waypoint, approach, tiltland, VehicleState, Pose, Reply,
}
use firt_version_ws.Offboard.Setpoints.{publish_position_setpoint}
use firt_version_ws.Offboard.Services.{
  arm_callback, set_mode_callback, disarm_callback, launch_callback, task_callback,
  vehicle_state_callback, local_position_callback, land, task_state_pub,
}
use firt_version_ws.Task.State.{Task}
use firt_version_ws.Task.Mission.{Readings, execute_waypoint_mission}
use firt_version_ws.Task.TiltLand.{tilt_land}
use firt_version_ws.Task.Switch.{Services, switch_task, with_base, check_task_switch_conditions}

-- What happens to the node: the executor runs one callback at a time.
pub data Event (R : Type 0) : Type 0 where
  timer : Services → Readings → Event R
  vehicle_state : VehicleState → Event R
  local_pose : Pose R → Event R
  launch : Bool → Event R
  task : ℤ → Event R
  arm_reply : Reply → Event R
  disarm_reply : Reply → Event R
  set_mode_reply : Reply → Event R

module _ {R : Type 0} ⦃p : Platform R⦄ where
  -- The part of timer_callback() before the setpoints are ready.
  unfoldable pub warm_up : Task R → Task R
  unfolding publish_position_setpoint
  warm_up t =
      let n = t.offboard_setpoint_counter + 1 in
      record t {
        base = publish_position_setpoint (dec 0 0) (dec 0 0) (dec 0 0) (dec 0 0) t.base;
        offboard_setpoint_counter = n;
        setpoint_ready = ltb 50 n;
      }

  unfoldable pub finish_tilt_land : Task R × Bool → Task R
  unfolding switch_task
  finish_tilt_land (t, done) = if done then switch_task FlightState.land t else t

  -- The switch of timer_callback(). `none`: an angle loop outlasts the fuel.
  unfoldable pub act_in : FlightState → ℕ → Services → Readings → Task R → Option (Task R)
  unfolding finish_tilt_land publish_position_setpoint
  act_in FlightState.init fuel s r t =
      let pos = t.base.local_position.position in
      some (with_base t (publish_position_setpoint pos.x pos.y pos.z (dec 0 0) t.base))
  act_in takeoff fuel s r t = some (
      with_base t (publish_position_setpoint (dec 0 0) (dec 0 0) t.takeoff_height (dec 0 0) t.base))
  act_in waypoint fuel s r t = execute_waypoint_mission fuel r t
  act_in tiltland fuel s r t = some (finish_tilt_land (tilt_land t))
  act_in FlightState.land fuel s r t = some (with_base t (land s.arming_ready t.base))
  act_in approach fuel s r t = some t

  -- The part below: the result of check_task_switch_conditions() is not used.
  unfoldable pub fly : ℕ → Services → Readings → Task R → Option (Task R)
  unfolding act_in task_state_pub
  fly fuel s r t =
      let switched = (check_task_switch_conditions s t).0 in
      let told = with_base switched (task_state_pub switched.base) in
      act_in told.base.flight_state fuel s r told

  unfoldable pub timer_callback : ℕ → Services → Readings → Task R → Option (Task R)
  unfolding warm_up
  timer_callback fuel s r t = if t.setpoint_ready then fly fuel s r t else some (warm_up t)

  unfoldable pub handle : ℕ → Event R → Task R → Option (Task R)
  unfolding timer_callback arm_callback set_mode_callback disarm_callback launch_callback
      task_callback vehicle_state_callback local_position_callback
  handle fuel (timer s r) t = timer_callback fuel s r t
  handle fuel (vehicle_state msg) t = some (with_base t (vehicle_state_callback msg t.base))
  handle fuel (local_pose msg) t = some (with_base t (local_position_callback msg t.base))
  handle fuel (launch flag) t = some (with_base t (launch_callback flag t.base))
  handle fuel (task id) t = some (with_base t (task_callback id t.base))
  handle fuel (arm_reply reply) t = some (with_base t (arm_callback reply t.base))
  handle fuel (disarm_reply reply) t = some (with_base t (disarm_callback reply t.base))
  handle fuel (set_mode_reply reply) t = some (with_base t (set_mode_callback reply t.base))

  unfoldable pub run : ℕ → List (Event R) → Task R → Option (Task R)
  run fuel [] t = some t
  run fuel (e ∷ es) t = handle fuel e t >>= run fuel es
