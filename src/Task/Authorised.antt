-- ===== src/Task/Authorised.antt =====
-- What it takes to leave the first flight state.
use firt_version_ws.Prelude.{
  ap, ℕ, Bool, true, false, ◌≡◌, ◌≢◌, refl, some, arith, inl, inr, if_true, if_false, Bool-cases,
  ◌∙◌, sym,
}
use mathlib.Core.Option.{some-injective}
use firt_version_ws.Platform.{Platform}
use firt_version_ws.Offboard.State.{FlightState}
use firt_version_ws.Task.State.{Task}
use firt_version_ws.Task.Mission.{Readings}
use firt_version_ws.Task.Switch.{
  Services, is_offboard, switch_in, leave_init, check_emergency_condition,
  check_task_switch_conditions,
}
use firt_version_ws.Task.Tick.{Event, timer, act_in, fly, timer_callback, handle}
use firt_version_ws.Task.Phases.{state_of, auto_land-state}

module _ {R : Type 0} ⦃p : Platform R⦄ where
  -- What lets the mission start, at the moment of the callback that starts it.
  pub record IsAuthorised (t : Task R) : Type 0 where
    pub streamed : t.setpoint_ready ≡ true
    pub launched : t.base.launch_flag ≡ true
    pub offboard : is_offboard t.base.current_state ≡ true
    pub armed : t.base.current_state.armed ≡ true
    pub in_range : check_emergency_condition t ≡ false

  leave_init-IsAuthorised :
      (s : Services) (t : Task R)
      → state_of t ≡ FlightState.init
      → state_of (leave_init s t).0 ≢ FlightState.init
      → (t.base.launch_flag ≡ true)
        × (is_offboard t.base.current_state ≡ true)
        × (t.base.current_state.armed ≡ true)
  unfolding leave_init
  leave_init-IsAuthorised s t e n = ground arith

  switch_in-IsAuthorised :
      (f : FlightState) (s : Services) (t : Task R)
      → f ≡ FlightState.init
      → state_of t ≡ f
      → state_of (switch_in f s t).0 ≢ FlightState.init
      → (t.base.launch_flag ≡ true)
        × (is_offboard t.base.current_state ≡ true)
        × (t.base.current_state.armed ≡ true)
  unfolding switch_in
  switch_in-IsAuthorised FlightState.init s t i e n = leave_init-IsAuthorised s t e n
  switch_in-IsAuthorised _ s t i e n = cc

  check-IsAuthorised :
      (s : Services) (t : Task R)
      → state_of t ≡ FlightState.init
      → state_of (check_task_switch_conditions s t).0 ≢ FlightState.init
      → (check_emergency_condition t ≡ false)
        × (t.base.launch_flag ≡ true)
        × (is_offboard t.base.current_state ≡ true)
        × (t.base.current_state.armed ≡ true)
  unfolding check_task_switch_conditions
  check-IsAuthorised s t e n = elim (Bool-cases (check_emergency_condition t)) [
    | inl bad ↦
        absurd
          (n (ap (λ (m : Task R × Bool). state_of m.0) (if_true _ _ bad) ∙ auto_land-state s t ∙ e))
    | inr fine ↦
        let moved : state_of (switch_in (state_of t) s t).0 ≢ FlightState.init =
          (λ k. n (ap (λ (m : Task R × Bool). state_of m.0) (if_false _ _ fine) ∙ k)) in
        let (a, b, c) = switch_in-IsAuthorised (state_of t) s t e refl moved in (fine, a, b, c)
  ]

  act_in_init :
      (f : FlightState) (fuel : ℕ) (s : Services) (r : Readings) (t : Task R) {u : Task R}
      → f ≡ FlightState.init
      → act_in f fuel s r t ≡ some u
      → state_of u ≡ state_of t
  unfolding act_in
  act_in_init FlightState.init fuel s r t i h = ground arith
  act_in_init _ fuel s r t i h = cc

  fly_init :
      (fuel : ℕ) (s : Services) (r : Readings) (t : Task R) {u : Task R}
      → fly fuel s r t ≡ some u
      → state_of u ≢ FlightState.init
      → state_of (check_task_switch_conditions s t).0 ≢ FlightState.init
  unfolding fly
  fly_init fuel s r t h n i =
      let switched = (check_task_switch_conditions s t).0 in
      n (act_in_init (state_of switched) fuel s r _ i h ∙ i)

  -- A callback takes the node out of its first state only if the setpoints count as ready, the launch
  -- flag is set, the autopilot is in OFFBOARD mode and armed, and the position is in range.
  pub handle-IsAuthorised :
      (fuel : ℕ) (e : Event R) (t : Task R) {u : Task R}
      → handle fuel e t ≡ some u
      → t.base.flight_state ≡ FlightState.init
      → u.base.flight_state ≢ FlightState.init
      → IsAuthorised t
  unfolding handle timer_callback
  handle-IsAuthorised fuel (timer s r) t {u} h i n = elim (Bool-cases t.setpoint_ready) [
    | inl ready ↦
        let moved = fly_init fuel s r t (sym (if_true _ _ ready) ∙ h) n in
        let (fine, a, b, c) = check-IsAuthorised s t i moved in
        record { streamed = ready; launched = a; offboard = b; armed = c; in_range = fine }
    | inr early ↦
        absurd (n (sym (ap state_of (some-injective _ _ (sym (if_false _ _ early) ∙ h))) ∙ i))
  ]
  handle-IsAuthorised fuel _ t h i n = absurd (n (ground arith))
