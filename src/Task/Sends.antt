-- ===== src/Task/Sends.antt =====
-- What one callback of the mission's timer sends in each flight state.
use mathlib.Core.Option.{some-injective}
use firt_version_ws.Prelude.{
  ap, ℕ, ◌<◌, true, false, ◌≡◌, sym, ◌∙◌, some, arith, inl, inr, get_elem?_of_lt, Option-cases,
  length,
}
use firt_version_ws.Platform.{Platform, lt, dec}
use firt_version_ws.Offboard.State.{Point, FlightState, takeoff, waypoint, approach, tiltland}
use firt_version_ws.Offboard.Setpoints.{publish_position_setpoint_trajectory}
use firt_version_ws.Offboard.Services.{task_state_pub}
use firt_version_ws.Task.State.{Task, Waypoint}
use firt_version_ws.Task.Stuck.{check_position_stuck_protection, reset_position_stuck_detection}
use firt_version_ws.Task.Mission.{Readings, advance, fly_to, execute_waypoint_mission, line_start}
use firt_version_ws.Task.TiltLand.{tilt_land, approach_line, descend}
use firt_version_ws.Task.Switch.{Services, with_base, check_task_switch_conditions}
use firt_version_ws.Task.Tick.{act_in, finish_tilt_land}
use firt_version_ws.Task.Output.{
  SendsSetpoint, IsSafe, setpoints, trajectory-SendsSetpoint, position-SendsSetpoint,
  velocity-SendsSetpoint, land-SendsSetpoint,
}

module _ {R : Type 0} ⦃p : Platform R⦄ where
  stuck-base : (now : ℕ) (t : Task R) → (check_position_stuck_protection now t).base ≡ t.base
  unfolding check_position_stuck_protection
  stuck-base now t = ground arith

  advance-base : (now : ℕ) (w : Waypoint R) (t : Task R) → (advance now w t).base ≡ t.base
  unfolding advance reset_position_stuck_detection
  advance-base now w t = ground arith

  pub fly_to-SendsSetpoint :
      (fuel : ℕ) (r : Readings) (w : Waypoint R) (t : Task R) {u : Task R}
      → fly_to fuel r w t ≡ some u
      → SendsSetpoint t.base u.base
  unfolding fly_to
  fly_to-SendsSetpoint fuel r w t {u} h =
      let checked = check_position_stuck_protection r.now_stuck t in
      let start = line_start checked.current_waypoint_index w checked in
      let end : Point R = record { x = w.x; y = w.y; z = w.z } in
      let sent =
        publish_position_setpoint_trajectory fuel r.now_cross start end w.yaw checked.base in
      elim (Option-cases sent) [
        | inl e ↦ absurd (ground (arith, e))
        | inr (b, e) ↦
            let k = some-injective _ _ (rw e at h) in
            let base = sym (ap (λ (v : Task R). v.base) k) ∙ advance-base r.now_reset w _ in
            rw (base, ← stuck-base r.now_stuck t)
              (trajectory-SendsSetpoint fuel r.now_cross start end w.yaw checked.base e)
      ]

  -- When the callback sends a setpoint in a flight state: not with all waypoints passed, and not in
  -- the callback that finds the vehicle down.
  abbrev pub Streams : FlightState → Task R → Type 0
  Streams waypoint t = t.current_waypoint_index < length t.waypoints
  Streams tiltland t = lt t.base.local_position.position.z (dec 8 2) ≡ false
  Streams approach t = ⊥
  Streams _ t = Unit {0}

  approach_line-SendsSetpoint : (t : Task R) → SendsSetpoint t.base (approach_line t).base
  unfolding approach_line
  approach_line-SendsSetpoint t = position-SendsSetpoint _ _ _ _ t.base

  descend-SendsSetpoint : (t : Task R) → SendsSetpoint t.base (descend t).base
  unfolding descend
  descend-SendsSetpoint t = velocity-SendsSetpoint _ _ _ _ t.base

  pub tilt_land-SendsSetpoint :
      (t : Task R)
      → lt t.base.local_position.position.z (dec 8 2) ≡ false
      → SendsSetpoint t.base (finish_tilt_land (tilt_land t)).base
  unfolding finish_tilt_land tilt_land
  tilt_land-SendsSetpoint t up = ground (
    arith,
    approach_line-SendsSetpoint t,
    descend-SendsSetpoint t,
    descend-SendsSetpoint (record t { stage1_completed = true }),
  )

  mission-SendsSetpoint :
      (fuel : ℕ) (r : Readings) (t : Task R) {u : Task R}
      → t.current_waypoint_index < length t.waypoints
      → execute_waypoint_mission fuel r t ≡ some u
      → SendsSetpoint t.base u.base
  unfolding execute_waypoint_mission
  mission-SendsSetpoint fuel r t {u} l h =
      let (w, found) = get_elem?_of_lt t.waypoints t.current_waypoint_index l in
      fly_to-SendsSetpoint fuel r w t {u = u} (ground (arith, found))

  pub act_in-SendsSetpoint :
      (f : FlightState) (fuel : ℕ) (s : Services) (r : Readings) (t : Task R) {u : Task R}
      → Streams f t
      → act_in f fuel s r t ≡ some u
      → SendsSetpoint t.base u.base
  unfolding act_in
  act_in-SendsSetpoint FlightState.init fuel s r t g h =
      rw (← some-injective _ _ h) (position-SendsSetpoint _ _ _ _ t.base)
  act_in-SendsSetpoint takeoff fuel s r t g h =
      rw (← some-injective _ _ h) (position-SendsSetpoint _ _ _ _ t.base)
  act_in-SendsSetpoint waypoint fuel s r t g h = mission-SendsSetpoint fuel r t g h
  act_in-SendsSetpoint tiltland fuel s r t g h =
      rw (← some-injective _ _ h) (tilt_land-SendsSetpoint t g)
  act_in-SendsSetpoint FlightState.land fuel s r t g h =
      rw (← some-injective _ _ h) (land-SendsSetpoint s.arming_ready t.base)
  act_in-SendsSetpoint approach fuel s r t g h = absurd g

  -- What check_task_switch_conditions() leaves alone.
  pub record SameCourse (t u : Task R) : Type 0 where
    pub sent : setpoints u.base.out ≡ setpoints t.base.out
    pub safe : IsSafe t.base → IsSafe u.base
    pub waypoints : u.waypoints ≡ t.waypoints
    pub index : u.current_waypoint_index ≡ t.current_waypoint_index
    pub position : u.base.local_position ≡ t.base.local_position
    pub threshold : u.waypoint_threshold ≡ t.waypoint_threshold
    pub height : u.takeoff_height ≡ t.takeoff_height
    pub ready : u.setpoint_ready ≡ t.setpoint_ready
    pub counter : u.offboard_setpoint_counter ≡ t.offboard_setpoint_counter

  pub check-SameCourse :
      (s : Services) (t : Task R) → SameCourse t (check_task_switch_conditions s t).0
  unfolding check_task_switch_conditions
  check-SameCourse s t = ground arith

  pub told-SameCourse :
      (s : Services) (t : Task R)
      → let switched = (check_task_switch_conditions s t).0 in
        SameCourse t (with_base switched (task_state_pub switched.base))
  unfolding task_state_pub
  told-SameCourse s t = ground (arith, check-SameCourse s t)
