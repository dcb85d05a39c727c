-- ===== src/Task/Streaming.antt =====
-- The setpoint stream: one setpoint in each callback, turn rates within the limit over every run,
-- and what the emergency and the touch-down do to it.
use mathlib.Core.Option.{some-injective}
use firt_version_ws.Prelude.{
  if_true, if_false, ap, ℕ, ◌+◌, true, false, ◌≡◌, sym, ◌∙◌, some, List, [], ◌∷◌, arith, inl, inr,
  Bool-cases, Option-cases, get_elem?,
}
use firt_version_ws.Platform.{Platform, lt, dec}
use firt_version_ws.Offboard.State.{Base, FlightState, takeoff, waypoint, approach, tiltland}
use firt_version_ws.Offboard.Services.{task_state_pub}
use firt_version_ws.Task.State.{Task}
use firt_version_ws.Task.Mission.{Readings, execute_waypoint_mission}
use firt_version_ws.Task.TiltLand.{tilt_land}
use firt_version_ws.Task.Switch.{Services, with_base, check_task_switch_conditions}
use firt_version_ws.Task.Tick.{
  Event, timer, warm_up, act_in, fly, finish_tilt_land, timer_callback, handle, run,
}
use firt_version_ws.Task.Output.{IsSafe, AllTurnWithin, IsLimit, setpoints, position-SendsSetpoint}
use firt_version_ws.Task.Sends.{
  Streams, SameCourse, told-SameCourse, act_in-SendsSetpoint, fly_to-SendsSetpoint,
  tilt_land-SendsSetpoint,
}

module _ {R : Type 0} ⦃p : Platform R⦄ where
  Streams-SameCourse : (f : FlightState) (t u : Task R) → SameCourse t u → Streams f t → Streams f u
  Streams-SameCourse waypoint t u same g = rw (same.waypoints, same.index) g
  Streams-SameCourse tiltland t u same g = rw (same.position) g
  Streams-SameCourse approach t u same g = absurd g
  Streams-SameCourse FlightState.init t u same g = tt
  Streams-SameCourse takeoff t u same g = tt
  Streams-SameCourse FlightState.land t u same g = tt

  -- After the warm-up each callback of the timer sends exactly one setpoint, in every flight state in
  -- which `Streams` holds. That leaves out APPROACH, which no step enters, a WAYPOINT state past the
  -- last waypoint, and the callback of TILTLAND that finds the vehicle below 0.08.
  pub fly-setpoints :
      (fuel : ℕ) (s : Services) (r : Readings) (t : Task R) {u : Task R}
      → Streams (check_task_switch_conditions s t).0.base.flight_state t
      → fly fuel s r t ≡ some u
      → setpoints u.base.out ≡ setpoints t.base.out + 1
  unfolding fly
  fly-setpoints fuel s r t {u} g h =
      let switched = (check_task_switch_conditions s t).0 in
      let told = with_base switched (task_state_pub switched.base) in
      let same = told-SameCourse s t in
      let g' = Streams-SameCourse told.base.flight_state t told same g in
      (act_in-SendsSetpoint told.base.flight_state fuel s r told g' h).one
      ∙ ap (λ (n : ℕ). n + 1) same.sent

  -- tilt_land() at touch-down: the state becomes LAND, the stages are reset, and nothing is sent.
  pub touch_down :
      (fuel : ℕ) (s : Services) (r : Readings) (t : Task R) {u : Task R}
      → lt t.base.local_position.position.z (dec 8 2) ≡ true
      → act_in tiltland fuel s r t ≡ some u
      → (u.base.flight_state ≡ FlightState.land)
        × (u.stage1_completed ≡ false)
        × (u.stage1_started ≡ false)
        × (u.base.out ≡ t.base.out)
  unfolding act_in finish_tilt_land tilt_land
  touch_down fuel s r t low h = ground arith

  IsSafe-of_same :
      (b c : Base R)
      → c.out ≡ b.out
      → c.max_angular_velocity ≡ b.max_angular_velocity
      → IsSafe b
      → IsSafe c
  IsSafe-of_same b c e m h = rw (e, m) h

  mission-IsSafe :
      (fuel : ℕ) (r : Readings) (t : Task R) {u : Task R}
      → execute_waypoint_mission fuel r t ≡ some u
      → IsSafe t.base
      → IsSafe u.base
  unfolding execute_waypoint_mission
  mission-IsSafe fuel r t {u} h safe =
      elim (Option-cases (get_elem? t.waypoints t.current_waypoint_index)) [
        | inl e ↦ IsSafe-of_same t.base u.base (ground (arith, e)) (ground (arith, e)) safe
        | inr (w, e) ↦ (fly_to-SendsSetpoint fuel r w t {u = u} (ground (arith, e))).safe safe
      ]

  touch_down_out :
      (t : Task R)
      → lt t.base.local_position.position.z (dec 8 2) ≡ true
      → let u = finish_tilt_land (tilt_land t) in
        (u.base.out ≡ t.base.out) × (u.base.max_angular_velocity ≡ t.base.max_angular_velocity)
  unfolding finish_tilt_land tilt_land
  touch_down_out t low = ground arith

  warm_up-IsSafe : (t : Task R) → IsSafe t.base → IsSafe (warm_up t).base
  unfolding warm_up
  warm_up-IsSafe t = (position-SendsSetpoint (dec 0 0) (dec 0 0) (dec 0 0) (dec 0 0) t.base).safe

  tilt-IsSafe : (t : Task R) → IsSafe t.base → IsSafe (finish_tilt_land (tilt_land t)).base
  tilt-IsSafe t safe = elim (Bool-cases (lt t.base.local_position.position.z (dec 8 2))) [
    | inl low ↦
        let still = touch_down_out t low in
        IsSafe-of_same t.base (finish_tilt_land (tilt_land t)).base still.0 still.1 safe
    | inr up ↦ (tilt_land-SendsSetpoint t up).safe safe
  ]

  act_in-IsSafe :
      (f : FlightState) (fuel : ℕ) (s : Services) (r : Readings) (t : Task R) {u : Task R}
      → act_in f fuel s r t ≡ some u
      → IsSafe t.base
      → IsSafe u.base
  unfolding act_in
  act_in-IsSafe waypoint fuel s r t h = mission-IsSafe fuel r t h
  act_in-IsSafe tiltland fuel s r t h = rw (← some-injective _ _ h) (tilt-IsSafe t)
  act_in-IsSafe approach fuel s r t h = rw (← some-injective _ _ h) (λ safe. safe)
  act_in-IsSafe FlightState.init fuel s r t h =
      (act_in-SendsSetpoint FlightState.init fuel s r t tt h).safe
  act_in-IsSafe takeoff fuel s r t h = (act_in-SendsSetpoint takeoff fuel s r t tt h).safe
  act_in-IsSafe FlightState.land fuel s r t h =
      (act_in-SendsSetpoint FlightState.land fuel s r t tt h).safe

  fly-IsSafe :
      (fuel : ℕ) (s : Services) (r : Readings) (t : Task R) {u : Task R}
      → fly fuel s r t ≡ some u
      → IsSafe t.base
      → IsSafe u.base
  unfolding fly
  fly-IsSafe fuel s r t h safe =
      let switched = (check_task_switch_conditions s t).0 in
      let told = with_base switched (task_state_pub switched.base) in
      act_in-IsSafe told.base.flight_state fuel s r told h ((told-SameCourse s t).safe safe)

  handle-IsSafe :
      (fuel : ℕ) (e : Event R) (t : Task R) {u : Task R}
      → handle fuel e t ≡ some u
      → IsSafe t.base
      → IsSafe u.base
  unfolding handle timer_callback
  handle-IsSafe fuel (timer s r) t {u} h safe = elim (Bool-cases t.setpoint_ready) [
    | inl ready ↦ fly-IsSafe fuel s r t (sym (if_true _ _ ready) ∙ h) safe
    | inr early ↦ rw (← some-injective _ _ (sym (if_false _ _ early) ∙ h)) (warm_up-IsSafe t safe)
  ]
  handle-IsSafe fuel _ t {u} h safe =
      IsSafe-of_same t.base u.base (ground arith) (ground arith) safe

  -- If the angular limit is a number that is not negative, and every velocity setpoint sent before a
  -- run turns at a rate within it, then so does every one sent by the end of the run.
  pub run-AllTurnWithin :
      (fuel : ℕ) (es : List (Event R)) (t : Task R) {u : Task R}
      → IsLimit t.base.max_angular_velocity
      → AllTurnWithin t.base.max_angular_velocity t.base.out
      → run fuel es t ≡ some u
      → IsLimit u.base.max_angular_velocity × AllTurnWithin u.base.max_angular_velocity u.base.out
  unfolding run
  run-AllTurnWithin fuel [] t l a h = rw (← some-injective _ _ h) (l, a)
  run-AllTurnWithin fuel (e ∷ es) t l a h = elim (Option-cases (handle fuel e t)) [
    | inl stuck ↦ absurd (ground (arith, stuck))
    | inr (v, ok) ↦
        let safe = handle-IsSafe fuel e t ok (l, a) in
        run-AllTurnWithin fuel es v safe.0 safe.1 (rw ok at h)
  ]
