-- ===== src/Task/Total.antt =====
-- A callback of the timer ends, whatever turns its angle loops take.
use firt_version_ws.Prelude.{
  ◌<◌, ℕ, zero, suc, ◌≡◌, ◌≢◌, subst, none, some, List, [], ◌∷◌, arith, inl, inr, Option-cases,
  get_elem?,
}
use mathlib.Core.Option.{some-injective}
use firt_version_ws.Platform.{Platform, ◌⊖◌}
use firt_version_ws.Offboard.State.{Base, Point, FlightState, waypoint}
use firt_version_ws.Offboard.Setpoints.{
  TrajectorySegment, segment, follow, publish_position_setpoint_trajectory,
}
use firt_version_ws.Offboard.Angles.{CountsTurns, wrap_angle_total}
use firt_version_ws.Offboard.Services.{task_state_pub}
use firt_version_ws.Task.State.{Task, Waypoint}
use firt_version_ws.Task.Stuck.{check_position_stuck_protection}
use firt_version_ws.Task.Mission.{Readings, fly_to, execute_waypoint_mission, line_start}
use firt_version_ws.Task.Switch.{Services, with_base, check_task_switch_conditions}
use firt_version_ws.Task.Tick.{act_in, fly, timer_callback}

module _ {R : Type 0} ⦃p : Platform R⦄ (laws : CountsTurns R) where
  open laws use {turns}

  -- No waypoint's heading is as many turns away from the vehicle's as the fuel.
  abbrev pub AllCovered : ℕ → R → List (Waypoint R) → Type 0
  AllCovered fuel yaw [] = Unit {0}
  AllCovered fuel yaw (w ∷ ws) = (turns (w.yaw ⊖ yaw) < fuel) × AllCovered fuel yaw ws

  AllCovered-get_elem? :
      (fuel : ℕ) (yaw : R) (ws : List (Waypoint R)) (i : ℕ) {w : Waypoint R}
      → AllCovered fuel yaw ws
      → get_elem? ws i ≡ some w
      → turns (w.yaw ⊖ yaw) < fuel
  AllCovered-get_elem? fuel yaw [] i h e = ground arith
  AllCovered-get_elem? fuel yaw (x ∷ ws) zero h e =
      subst (λ (w : Waypoint R). turns (w.yaw ⊖ yaw) < fuel) (some-injective _ _ e) h.0
  AllCovered-get_elem? fuel yaw (x ∷ ws) (suc i) h e = AllCovered-get_elem? fuel yaw ws i h.1 e

  follow-ne-none :
      (fuel now : ℕ) (s : TrajectorySegment R) (target : R) (b : Base R)
      → turns (target ⊖ b.current_yaw) < fuel
      → follow fuel now s target b ≢ none
  unfolding follow
  follow-ne-none fuel now s target b fits =
      let (r, ends, in_turn, turned) = wrap_angle_total laws fuel (target ⊖ b.current_yaw) fits in
      ground (arith, ends)

  trajectory-ne-none :
      (fuel now : ℕ) (start end : Point R) (target : R) (b : Base R)
      → turns (target ⊖ b.current_yaw) < fuel
      → publish_position_setpoint_trajectory fuel now start end target b ≢ none
  unfolding publish_position_setpoint_trajectory
  trajectory-ne-none fuel now start end target b fits =
      ground (arith, follow-ne-none fuel now (segment start end) target b fits)

  stuck-yaw :
      (now : ℕ) (t : Task R)
      → (check_position_stuck_protection now t).base.current_yaw ≡ t.base.current_yaw
  unfolding check_position_stuck_protection
  stuck-yaw now t = ground arith

  fly_to-ne-none :
      (fuel : ℕ) (r : Readings) (w : Waypoint R) (t : Task R)
      → turns (w.yaw ⊖ t.base.current_yaw) < fuel
      → fly_to fuel r w t ≢ none
  unfolding fly_to
  fly_to-ne-none fuel r w t fits =
      let checked = check_position_stuck_protection r.now_stuck t in
      let start = line_start checked.current_waypoint_index w checked in
      let end : Point R = record { x = w.x; y = w.y; z = w.z } in
      let fits' : turns (w.yaw ⊖ checked.base.current_yaw) < fuel =
        rw (stuck-yaw r.now_stuck t) fits in
      ground (arith, trajectory-ne-none fuel r.now_cross start end w.yaw checked.base fits')

  mission-ne-none :
      (fuel : ℕ) (r : Readings) (t : Task R)
      → AllCovered fuel t.base.current_yaw t.waypoints
      → execute_waypoint_mission fuel r t ≢ none
  unfolding execute_waypoint_mission
  mission-ne-none fuel r t all =
      elim (Option-cases (get_elem? t.waypoints t.current_waypoint_index)) [
        | inl e ↦ ground (arith, e)
        | inr (w, e) ↦
            let fits =
              AllCovered-get_elem? fuel t.base.current_yaw t.waypoints t.current_waypoint_index all
                e in
            ground (arith, e, fly_to-ne-none fuel r w t fits)
      ]

  act_in-ne-none :
      (f : FlightState) (fuel : ℕ) (s : Services) (r : Readings) (t : Task R)
      → AllCovered fuel t.base.current_yaw t.waypoints
      → act_in f fuel s r t ≢ none
  unfolding act_in
  act_in-ne-none waypoint fuel s r t all = mission-ne-none fuel r t all
  act_in-ne-none _ fuel s r t all = ground arith

  told-same :
      (s : Services) (t : Task R)
      → let switched = (check_task_switch_conditions s t).0 in
        let told = with_base switched (task_state_pub switched.base) in
        (told.base.current_yaw ≡ t.base.current_yaw) × (told.waypoints ≡ t.waypoints)
  unfolding check_task_switch_conditions task_state_pub
  told-same s t = ground arith

  -- If the numbers count turns, a callback of the timer ends in every state, with a fuel above the
  -- turns between each waypoint's heading and the vehicle's. (The exception of rclcpp on two clocks'
  -- times is not in the model.)
  pub timer_callback_total :
      (fuel : ℕ) (s : Services) (r : Readings) (t : Task R)
      → AllCovered fuel t.base.current_yaw t.waypoints
      → (u : Task R) × (timer_callback fuel s r t ≡ some u)
  unfolding timer_callback fly
  timer_callback_total fuel s r t all =
      let switched = (check_task_switch_conditions s t).0 in
      let told = with_base switched (task_state_pub switched.base) in
      let same = told-same s t in
      let all' : AllCovered fuel told.base.current_yaw told.waypoints = rw (same.0, same.1) all in
      elim (Option-cases (timer_callback fuel s r t)) [
        | inr (u, e) ↦ (u, e)
        | inl e ↦ absurd (ground (arith, act_in-ne-none told.base.flight_state fuel s r told all'))
      ]
