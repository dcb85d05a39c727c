-- ===== src/Task/Waypoints.antt =====
-- The order of the waypoints: none is skipped, and the descent begins only past the last.
use mathlib.Core.Option.{some-injective}
use mathlib.Core.Path.{ap₂}
use native.Mathlib.Decide.{dec_le}
use firt_version_ws.Prelude.{
  if_true, ap, ℕ, suc, ◌≤◌, ◌<◌, true, ◌≡◌, sym, ◌∙◌, some, List, [], ◌∷◌, arith, inl, inr, ◌⊎◌,
  Bool-cases, Option-cases, get_elem?,
}
use firt_version_ws.Platform.{Platform}
use firt_version_ws.Offboard.State.{Point, FlightState, waypoint}
use firt_version_ws.Offboard.Setpoints.{publish_position_setpoint_trajectory}
use firt_version_ws.Offboard.Services.{task_state_pub}
use firt_version_ws.Task.State.{Task, Waypoint}
use firt_version_ws.Task.Stuck.{check_position_stuck_protection, reset_position_stuck_detection}
use firt_version_ws.Task.Mission.{
  Readings, is_at_point, advance, fly_to, execute_waypoint_mission, line_start,
}
use firt_version_ws.Task.TiltLand.{tilt_land}
use firt_version_ws.Task.Switch.{Services, with_base, check_task_switch_conditions}
use firt_version_ws.Task.Tick.{
  Event, timer, warm_up, act_in, fly, finish_tilt_land, timer_callback, handle, run,
}
use firt_version_ws.Task.Frame.{stuck-SameMission, trajectory-SameControl}
use firt_version_ws.Task.Sends.{told-SameCourse}

module _ {R : Type 0} ⦃p : Platform R⦄ where
  -- The vehicle is within the threshold of the waypoint.
  abbrev pub IsAt : Waypoint R → Task R → Type 0
  IsAt w t = is_at_point w.x w.y w.z t ≡ true

  -- A step that passes the waypoint at the index, where the vehicle then is.
  pub record Passes (t u : Task R) : Type 0 where
    pub target : Waypoint R
    pub current : get_elem? t.waypoints t.current_waypoint_index ≡ some target
    pub reached : IsAt target t
    pub counted : u.current_waypoint_index ≡ suc t.current_waypoint_index

  abbrev pub Progress : Task R → Task R → Type 0
  Progress t u = (u.current_waypoint_index ≡ t.current_waypoint_index) ⊎ Passes t u

  is_at_point-same :
      (w : Waypoint R) (t u : Task R)
      → u.base.local_position ≡ t.base.local_position
      → u.waypoint_threshold ≡ t.waypoint_threshold
      → is_at_point w.x w.y w.z u ≡ is_at_point w.x w.y w.z t
  unfolding is_at_point
  is_at_point-same w t u e k = rw (e, k)

  advance-index :
      (now : ℕ) (w : Waypoint R) (t : Task R)
      → ((advance now w t).current_waypoint_index ≡ t.current_waypoint_index)
        ⊎ (((advance now w t).current_waypoint_index ≡ suc t.current_waypoint_index) × IsAt w t)
  unfolding advance reset_position_stuck_detection is_at_point
  advance-index now w t = ground arith

  stuck-index :
      (now : ℕ) (t : Task R)
      → (check_position_stuck_protection now t).current_waypoint_index ≡ t.current_waypoint_index
  unfolding check_position_stuck_protection
  stuck-index now t = ground arith

  fly_to-Progress :
      (fuel : ℕ) (r : Readings) (w : Waypoint R) (t : Task R) {u : Task R}
      → get_elem? t.waypoints t.current_waypoint_index ≡ some w
      → fly_to fuel r w t ≡ some u
      → Progress t u
  unfolding fly_to
  fly_to-Progress fuel r w t {u} found h =
      let checked = check_position_stuck_protection r.now_stuck t in
      let start = line_start checked.current_waypoint_index w checked in
      let end : Point R = record { x = w.x; y = w.y; z = w.z } in
      let sent =
        publish_position_setpoint_trajectory fuel r.now_cross start end w.yaw checked.base in
      elim (Option-cases sent) [
        | inl e ↦ absurd (ground (arith, e))
        | inr (b, e) ↦
            let flown = record checked { base = b } in
            let k =
              ap (λ (v : Task R). v.current_waypoint_index)
                (sym (some-injective _ _ (rw e at h))) in
            let first = stuck-SameMission r.now_stuck t in
            let control = trajectory-SameControl fuel r.now_cross start end w.yaw checked.base e in
            elim (advance-index r.now_reset w flown) [
              | inl same ↦ inl (k ∙ same ∙ stuck-index r.now_stuck t)
              | inr (next, at) ↦ inr (record {
                target = w;
                current = found;
                reached =
                    sym (
                      is_at_point-same w t flown (control.position ∙ first.control.position)
                        first.threshold)
                    ∙ at;
                counted = k ∙ next ∙ ap suc (stuck-index r.now_stuck t);
              })
            ]
      ]

  pub mission-Progress :
      (fuel : ℕ) (r : Readings) (t : Task R) {u : Task R}
      → execute_waypoint_mission fuel r t ≡ some u
      → Progress t u
  unfolding execute_waypoint_mission
  mission-Progress fuel r t {u} h =
      elim (Option-cases (get_elem? t.waypoints t.current_waypoint_index)) [
        | inl e ↦ inl (ground (arith, e))
        | inr (w, e) ↦ fly_to-Progress fuel r w t {u = u} e (ground (arith, e))
      ]

  act_in-Progress :
      (f : FlightState) (fuel : ℕ) (s : Services) (r : Readings) (t : Task R) {u : Task R}
      → act_in f fuel s r t ≡ some u
      → Progress t u
  unfolding act_in finish_tilt_land tilt_land
  act_in-Progress waypoint fuel s r t h = mission-Progress fuel r t h
  act_in-Progress _ fuel s r t h = inl (ground arith)

  fly-Progress :
      (fuel : ℕ) (s : Services) (r : Readings) (t : Task R) {u : Task R}
      → fly fuel s r t ≡ some u
      → Progress t u
  unfolding fly
  fly-Progress fuel s r t {u} h =
      let switched = (check_task_switch_conditions s t).0 in
      let told = with_base switched (task_state_pub switched.base) in
      let same = told-SameCourse s t in
      elim (act_in-Progress told.base.flight_state fuel s r told {u = u} h) [
        | inl e ↦ inl (e ∙ same.index)
        | inr g ↦
            let w = g.target in
            inr (record {
              target = w;
              current = sym (ap₂ get_elem? same.waypoints same.index) ∙ g.current;
              reached = sym (is_at_point-same w t told same.position same.threshold) ∙ g.reached;
              counted = g.counted ∙ ap suc same.index;
            })
      ]

  handle-Progress :
      (fuel : ℕ) (e : Event R) (t : Task R) {u : Task R} → handle fuel e t ≡ some u → Progress t u
  unfolding handle timer_callback warm_up
  handle-Progress fuel (timer s r) t {u} h = elim (Bool-cases t.setpoint_ready) [
    | inl ready ↦ fly-Progress fuel s r t (sym (if_true _ _ ready) ∙ h)
    | inr early ↦ inl (ground (arith, early))
  ]
  handle-Progress fuel _ t h = inl (ground arith)

  -- At some moment of the run the vehicle was at the waypoint of index `i`.
  pub data Visited (fuel i : ℕ) : List (Event R) → Task R → Type 0 where
    now :
        {e : Event R} {es : List (Event R)} {t : Task R} (w : Waypoint R)
        → get_elem? t.waypoints i ≡ some w
        → IsAt w t
        → Visited fuel i (e ∷ es) t
    later :
        {e : Event R} {es : List (Event R)} {t u : Task R}
        → handle fuel e t ≡ some u
        → Visited fuel i es u
        → Visited fuel i (e ∷ es) t

  -- Every waypoint that a run counts as passed was visited: at some moment of it the vehicle was
  -- within the threshold of it.
  pub run-Visited :
      (fuel i : ℕ) (es : List (Event R)) (t : Task R) {u : Task R}
      → run fuel es t ≡ some u
      → t.current_waypoint_index ≤ i
      → i < u.current_waypoint_index
      → Visited fuel i es t
  unfolding run
  run-Visited fuel i [] t {u} h l k =
      let same = ap (λ (v : Task R). v.current_waypoint_index) (some-injective _ _ h) in
      absurd (omega arith)
  run-Visited fuel i (e ∷ es) t {u} h l k = elim (Option-cases (handle fuel e t)) [
    | inl stuck ↦ absurd (ground (arith, stuck))
    | inr (v, ok) ↦
        let go = λ (m : v.current_waypoint_index ≤ i).
          later ok (run-Visited fuel i es v {u = u} (rw ok at h) m k) in
        elim (handle-Progress fuel e t ok) [
          | inl same ↦ go (omega arith)
          | inr g ↦ elim (dec_le v.current_waypoint_index i) [
            | yes m ↦ go m
            | no m ↦
                let here : t.current_waypoint_index ≡ i = omega (arith, g.counted) in
                now g.target (ap (get_elem? t.waypoints) (sym here) ∙ g.current) g.reached
          ]
        ]
  ]
