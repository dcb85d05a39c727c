-- ===== src/Task/Landing.antt =====
-- The descent begins only when every waypoint has been visited.
use mathlib.Core.Option.{some-injective}
use firt_version_ws.Prelude.{
  if_true, ap, ℕ, ◌≤◌, ◌<◌, Bool, true, false, ◌≡◌, refl, sym, ◌∙◌, some, List, [], ◌∷◌, arith, inl,
  inr, Bool-cases, Option-cases, length, lt_of_get_elem?,
}
use firt_version_ws.Platform.{Platform}
use firt_version_ws.Offboard.State.{FlightState, waypoint, tiltland}
use firt_version_ws.Offboard.Services.{task_state_pub, land}
use firt_version_ws.Task.State.{Task}
use firt_version_ws.Task.Mission.{Readings, execute_waypoint_mission}
use firt_version_ws.Task.TiltLand.{tilt_land}
use firt_version_ws.Task.Switch.{Services, with_base, check_task_switch_conditions}
use firt_version_ws.Task.Tick.{
  Event, timer, warm_up, act_in, fly, finish_tilt_land, timer_callback, handle, run,
}
use firt_version_ws.Task.Frame.{mission-SameMission}
use firt_version_ws.Task.Waypoints.{mission-Progress, Visited, run-Visited}

abbrev pub is_down : FlightState → Bool
is_down tiltland = true
is_down FlightState.land = true
is_down _ = false

-- The index is in range, and past the last waypoint once the descent has begun.
pub record IsOnCourse {R : Type 0} (t : Task R) : Type 0 where
  pub in_range : t.current_waypoint_index ≤ length t.waypoints
  pub all_passed :
      is_down t.base.flight_state ≡ true → t.current_waypoint_index ≡ length t.waypoints

module _ {R : Type 0} ⦃p : Platform R⦄ where
  told-IsOnCourse :
      (s : Services) (t : Task R)
      → IsOnCourse t
      → let switched = (check_task_switch_conditions s t).0 in
        IsOnCourse (with_base switched (task_state_pub switched.base))
  unfolding check_task_switch_conditions task_state_pub
  told-IsOnCourse s t c = ground arith

  told-waypoints :
      (s : Services) (t : Task R) → (check_task_switch_conditions s t).0.waypoints ≡ t.waypoints
  unfolding check_task_switch_conditions
  told-waypoints s t = ground arith

  -- What a callback does to the course.
  record StaysOnCourse (t u : Task R) : Type 0 where
    course : IsOnCourse t → IsOnCourse u
    waypoints : u.waypoints ≡ t.waypoints

  mission-StaysOnCourse :
      (fuel : ℕ) (r : Readings) (t : Task R) {u : Task R}
      → t.base.flight_state ≡ waypoint
      → execute_waypoint_mission fuel r t ≡ some u
      → StaysOnCourse t u
  mission-StaysOnCourse fuel r t {u} w h =
      let same = mission-SameMission fuel r t h in
      let state = same.control.flight_state ∙ w in
      record {
        course = λ c. record {
          in_range = elim (mission-Progress fuel r t {u = u} h) [
            | inl e ↦ rw (e, same.waypoints) c.in_range
            | inr g ↦
                let room = lt_of_get_elem? t.waypoints t.current_waypoint_index g.current in
                rw (g.counted, same.waypoints) room
          ];
          all_passed = λ d. ground (arith, state);
        };
        waypoints = same.waypoints;
      }

  act_in-StaysOnCourse :
      (f : FlightState) (fuel : ℕ) (s : Services) (r : Readings) (t : Task R) {u : Task R}
      → t.base.flight_state ≡ f
      → act_in f fuel s r t ≡ some u
      → StaysOnCourse t u
  unfolding act_in finish_tilt_land tilt_land land
  act_in-StaysOnCourse waypoint fuel s r t e h = mission-StaysOnCourse fuel r t e h
  act_in-StaysOnCourse _ fuel s r t e h = record {
    course = λ c. ground arith;
    waypoints = ground arith;
  }

  timer-StaysOnCourse :
      (fuel : ℕ) (s : Services) (r : Readings) (t : Task R) {u : Task R}
      → timer_callback fuel s r t ≡ some u
      → StaysOnCourse t u
  unfolding timer_callback fly warm_up
  timer-StaysOnCourse fuel s r t {u} h = elim (Bool-cases t.setpoint_ready) [
    | inl ready ↦
        let switched = (check_task_switch_conditions s t).0 in
        let told = with_base switched (task_state_pub switched.base) in
        let rest =
          act_in-StaysOnCourse told.base.flight_state fuel s r told refl
            (sym (if_true _ _ ready) ∙ h) in
        record {
          course = λ c. rest.course (told-IsOnCourse s t c);
          waypoints = rest.waypoints ∙ told-waypoints s t;
        }
    | inr early ↦ record { course = λ c. ground (arith, early); waypoints = ground (arith, early) }
  ]

  handle-StaysOnCourse :
      (fuel : ℕ) (e : Event R) (t : Task R) {u : Task R}
      → handle fuel e t ≡ some u
      → StaysOnCourse t u
  unfolding handle
  handle-StaysOnCourse fuel (timer s r) t h = timer-StaysOnCourse fuel s r t h
  handle-StaysOnCourse fuel _ t h = record { course = λ c. ground arith; waypoints = ground arith }

  run-StaysOnCourse :
      (fuel : ℕ) (es : List (Event R)) (t : Task R) {u : Task R}
      → run fuel es t ≡ some u
      → StaysOnCourse t u
  unfolding run
  run-StaysOnCourse fuel [] t {u} h =
      rw (← some-injective _ _ h) (record { course = λ c. c; waypoints = refl })
  run-StaysOnCourse fuel (e ∷ es) t {u} h = elim (Option-cases (handle fuel e t)) [
    | inl stuck ↦ absurd (ground (arith, stuck))
    | inr (v, ok) ↦
        let first = handle-StaysOnCourse fuel e t ok in
        let rest = run-StaysOnCourse fuel es v {u = u} (rw ok at h) in
        record {
          course = λ c. rest.course (first.course c);
          waypoints = rest.waypoints ∙ first.waypoints;
        }
  ]

  -- A run that starts before the descent, at the first waypoint, and ends in TILTLAND or LAND has
  -- visited every waypoint of the mission.
  pub run_lands :
      (fuel : ℕ) (es : List (Event R)) (t : Task R) {u : Task R}
      → t.current_waypoint_index ≡ 0
      → is_down t.base.flight_state ≡ false
      → run fuel es t ≡ some u
      → is_down u.base.flight_state ≡ true
      → (i : ℕ) → i < length t.waypoints
      → Visited fuel i es t
  run_lands fuel es t {u} z up h down i l =
      let stays = run-StaysOnCourse fuel es t {u = u} h in
      let course : IsOnCourse t = record {
        in_range = omega arith;
        all_passed = λ d. ground arith;
      } in
      let passed = (stays.course course).all_passed down ∙ ap length stays.waypoints in
      run-Visited fuel i es t {u = u} h (omega arith) (omega arith)
