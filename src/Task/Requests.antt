-- ===== src/Task/Requests.antt =====
-- The requests to arm and for OFFBOARD mode: never more than the replies received and one.
use mathlib.Core.Option.{some-injective}
use firt_version_ws.Prelude.{
  if_true, ℕ, suc, ◌+◌, ◌≤◌, Bool, true, false, ◌≡◌, sym, ◌∙◌, some, List, [], ◌∷◌, arith, inl, inr,
  Bool-cases, Option-cases, get_elem?,
}
use firt_version_ws.Platform.{Platform}
use firt_version_ws.Offboard.State.{Base, FlightState, waypoint, tiltland}
use firt_version_ws.Offboard.Services.{task_state_pub, land}
use firt_version_ws.Task.State.{Task}
use firt_version_ws.Task.Mission.{Readings, execute_waypoint_mission}
use firt_version_ws.Task.TiltLand.{tilt_land}
use firt_version_ws.Task.Switch.{Services, with_base, check_task_switch_conditions}
use firt_version_ws.Task.Tick.{
  Event, timer, arm_reply, set_mode_reply, warm_up, act_in, fly, finish_tilt_land, timer_callback,
  handle, run,
}
use firt_version_ws.Task.Frame.{mission-SameMission}
use firt_version_ws.Task.Output.{arm_requests, offboard_requests}
use firt_version_ws.Task.Sends.{fly_to-SendsSetpoint}

abbrev pub bit : Bool → ℕ
bit false = 0
bit true = 1

bit-le : (b : Bool) → bit b ≤ 1
bit-le b = ground arith

module _ {R : Type 0} where
  -- How many replies to the two requests there are.
  abbrev pub arm_replies : List (Event R) → ℕ
  arm_replies [] = 0
  arm_replies (arm_reply reply ∷ es) = suc (arm_replies es)
  arm_replies (e ∷ es) = arm_replies es

  abbrev pub set_mode_replies : List (Event R) → ℕ
  set_mode_replies [] = 0
  set_mode_replies (set_mode_reply reply ∷ es) = suc (set_mode_replies es)
  set_mode_replies (e ∷ es) = set_mode_replies es

  replies_cons :
      (e : Event R) (es : List (Event R))
      → (arm_replies (e ∷ es) ≡ arm_replies (e ∷ []) + arm_replies es)
        × (set_mode_replies (e ∷ es) ≡ set_mode_replies (e ∷ []) + set_mode_replies es)
  replies_cons (arm_reply reply) es = omega arith
  replies_cons _ es = omega arith

  -- A step that sends a request just when it raises the request's flag.
  record Flagged (b c : Base R) : Type 0 where
    arm : arm_requests c.out + bit b.apply_arm_flag ≡ arm_requests b.out + bit c.apply_arm_flag
    offboard :
        offboard_requests c.out + bit b.apply_offboard_flag
        ≡ offboard_requests b.out + bit c.apply_offboard_flag

  Flagged-trans : (b c d : Base R) → Flagged b c → Flagged c d → Flagged b d
  Flagged-trans b c d h k = omega arith

module _ {R : Type 0} ⦃p : Platform R⦄ where
  check-Flagged :
      (s : Services) (t : Task R)
      → let switched = (check_task_switch_conditions s t).0 in
        Flagged t.base (task_state_pub switched.base)
  unfolding check_task_switch_conditions task_state_pub
  check-Flagged s t = ground arith

  land-Flagged : (ready : Bool) (b : Base R) → Flagged b (land ready b)
  unfolding land
  land-Flagged ready b = ground arith

  tilt_land-Flagged : (t : Task R) → Flagged t.base (finish_tilt_land (tilt_land t)).base
  unfolding finish_tilt_land tilt_land
  tilt_land-Flagged t = ground arith

  mission-Flagged :
      (fuel : ℕ) (r : Readings) (t : Task R) {u : Task R}
      → execute_waypoint_mission fuel r t ≡ some u
      → Flagged t.base u.base
  unfolding execute_waypoint_mission
  mission-Flagged fuel r t {u} h =
      elim (Option-cases (get_elem? t.waypoints t.current_waypoint_index)) [
        | inl e ↦ ground (arith, e)
        | inr (w, e) ↦
            let sent = fly_to-SendsSetpoint fuel r w t {u = u} (ground (arith, e)) in
            ground (arith, mission-SameMission fuel r t {u = u} h)
      ]

  act_in-Flagged :
      (f : FlightState) (fuel : ℕ) (s : Services) (r : Readings) (t : Task R) {u : Task R}
      → act_in f fuel s r t ≡ some u
      → Flagged t.base u.base
  unfolding act_in
  act_in-Flagged waypoint fuel s r t h = mission-Flagged fuel r t h
  act_in-Flagged tiltland fuel s r t h = rw (← some-injective _ _ h) (tilt_land-Flagged t)
  act_in-Flagged FlightState.land fuel s r t h =
      rw (← some-injective _ _ h) (land-Flagged s.arming_ready t.base)
  act_in-Flagged _ fuel s r t h = ground arith

  fly-Flagged :
      (fuel : ℕ) (s : Services) (r : Readings) (t : Task R) {u : Task R}
      → fly fuel s r t ≡ some u
      → Flagged t.base u.base
  unfolding fly
  fly-Flagged fuel s r t {u} h =
      let switched = (check_task_switch_conditions s t).0 in
      let told = with_base switched (task_state_pub switched.base) in
      Flagged-trans t.base told.base u.base (check-Flagged s t)
        (act_in-Flagged told.base.flight_state fuel s r told h)

  timer-Flagged :
      (fuel : ℕ) (s : Services) (r : Readings) (t : Task R) {u : Task R}
      → timer_callback fuel s r t ≡ some u
      → Flagged t.base u.base
  unfolding timer_callback warm_up
  timer-Flagged fuel s r t {u} h = elim (Bool-cases t.setpoint_ready) [
    | inl ready ↦ fly-Flagged fuel s r t (sym (if_true _ _ ready) ∙ h)
    | inr early ↦ ground (arith, early)
  ]

  -- The same for any event, a reply excepted, which lowers its flag.
  record Answered (b c : Base R) (arms modes : ℕ) : Type 0 where
    arm :
        arm_requests c.out + bit b.apply_arm_flag ≤ arm_requests b.out + bit c.apply_arm_flag + arms
    offboard :
        offboard_requests c.out + bit b.apply_offboard_flag
        ≤ offboard_requests b.out + bit c.apply_offboard_flag + modes

  handle-Answered :
      (fuel : ℕ) (e : Event R) (t : Task R) {u : Task R}
      → handle fuel e t ≡ some u
      → Answered t.base u.base (arm_replies (e ∷ [])) (set_mode_replies (e ∷ []))
  unfolding handle
  handle-Answered fuel (timer s r) t {u} h = omega (arith, timer-Flagged fuel s r t {u = u} h)
  handle-Answered fuel _ t h = ground arith

  run-Answered :
      (fuel : ℕ) (es : List (Event R)) (t : Task R) {u : Task R}
      → run fuel es t ≡ some u
      → Answered t.base u.base (arm_replies es) (set_mode_replies es)
  unfolding run
  run-Answered fuel [] t {u} h = ground arith
  run-Answered fuel (e ∷ es) t {u} h = elim (Option-cases (handle fuel e t)) [
    | inl stuck ↦ absurd (ground (arith, stuck))
    | inr (v, ok) ↦
        let first = handle-Answered fuel e t {u = v} ok in
        let rest = run-Answered fuel es v {u = u} (rw ok at h) in
        omega (arith, first, rest, replies_cons e es)
  ]

  -- Over any run from a node that has sent nothing, the requests to arm are at most one more than the
  -- replies to such requests, and so are those for OFFBOARD mode.
  pub run_requests :
      (fuel : ℕ) (es : List (Event R)) (t : Task R) {u : Task R}
      → t.base.out ≡ []
      → run fuel es t ≡ some u
      → (arm_requests u.base.out ≤ arm_replies es + 1)
        × (offboard_requests u.base.out ≤ set_mode_replies es + 1)
  run_requests fuel es t {u} empty h =
      let answered = run-Answered fuel es t {u = u} h in
      ground
        (arith, answered, bit-le u.base.apply_arm_flag, bit-le u.base.apply_offboard_flag, empty)
