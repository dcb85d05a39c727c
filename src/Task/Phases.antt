-- ===== src/Task/Phases.antt =====
-- The flight states that the mission goes through.

use firt_version_ws.Prelude.{
  ap, ◌≤◌, ◌<◌, ◌++◌, ℕ, Bool, ◌≡◌, ◌⊎◌, refl, some, List, [], ◌∷◌, arith, inl, inr, if_true,
  Bool-cases, Option-cases, ◌∙◌, sym, leb, length,
}
use native.Mathlib.Decide.{ℕ_discrete}
use mathlib.Core.Option.{some-injective}
use firt_version_ws.Platform.{Platform}
use firt_version_ws.Offboard.State.{Base, FlightState, takeoff, waypoint, approach, tiltland}
use firt_version_ws.Offboard.Services.{task_state_pub, land, auto_land}
use firt_version_ws.Task.State.{Task}
use firt_version_ws.Task.Mission.{Readings}
use firt_version_ws.Task.TiltLand.{tilt_land}
use firt_version_ws.Task.Switch.{
  Services, with_base, switch_in, leave_init, check_emergency_condition,
  check_task_switch_conditions, at_height,
}
use firt_version_ws.Task.Tick.{
  Event, timer, finish_tilt_land, act_in, fly, timer_callback, handle, run,
}
use firt_version_ws.Task.Frame.{mission-SameMission}

infix 40 ◌⟶◌
-- What one callback does to the state. The last one is a vehicle that is already down when it is to
-- land: TILTLAND is entered and left in the same callback.
pub data ◌⟶◌ : FlightState → FlightState → Type 0 where
  stayed : {s : FlightState} → s ⟶ s
  authorised : FlightState.init ⟶ takeoff
  climbed : takeoff ⟶ waypoint
  flown : waypoint ⟶ tiltland
  touched : tiltland ⟶ FlightState.land
  down_already : waypoint ⟶ FlightState.land

-- What check_task_switch_conditions() does to the state, and what the state's own action does.
data Switched : FlightState → FlightState → Type 0 where
  kept : {s : FlightState} → Switched s s
  start : Switched FlightState.init takeoff
  climb : Switched takeoff waypoint
  fly_on : Switched waypoint tiltland

data Acted : FlightState → FlightState → Type 0 where
  nothing : {s : FlightState} → Acted s s
  touch : Acted tiltland FlightState.land

joined : {s t u : FlightState} → Switched s t → Acted t u → s ⟶ u
joined kept nothing = stayed
joined kept touch = touched
joined start nothing = authorised
joined climb nothing = climbed
joined fly_on nothing = flown
joined fly_on touch = down_already

unswitched : {s u : FlightState} → u ≡ s → Switched s u
unswitched e = rw e kept

idle : {s u : FlightState} → u ≡ s → Acted s u
idle e = rw e nothing

-- The place of a state in the mission. APPROACH has none.
abbrev pub rank : FlightState → ℕ
rank FlightState.init = 0
rank takeoff = 1
rank waypoint = 2
rank tiltland = 3
rank FlightState.land = 4
rank approach = 5

stays : {s u : FlightState} → u ≡ s → s ⟶ u
stays e = rw e stayed

-- A callback does not go back, does not jump over TAKEOFF or WAYPOINT, and does not enter APPROACH.
⟶-rank : {f g : FlightState} → f ⟶ g → rank f ≤ rank g
⟶-rank stayed = omega arith
⟶-rank authorised = omega arith
⟶-rank climbed = omega arith
⟶-rank flown = omega arith
⟶-rank touched = omega arith
⟶-rank down_already = omega arith

⟶-no_jump : {f g : FlightState} (k : ℕ) → f ⟶ g → k < 3 → rank f < k → rank g ≤ k
⟶-no_jump k stayed small low = omega (arith, low)
⟶-no_jump k authorised small low = omega (arith, low)
⟶-no_jump k climbed small low = omega (arith, low)
⟶-no_jump k flown small low = absurd (omega (arith, small, low))
⟶-no_jump k touched small low = absurd (omega (arith, small, low))
⟶-no_jump k down_already small low = absurd (omega (arith, small, low))

⟶-approach : {f g : FlightState} → f ⟶ g → rank g ≡ 5 → rank f ≡ 5
⟶-approach stayed e = e
⟶-approach authorised e = absurd (omega (arith, e))
⟶-approach climbed e = absurd (omega (arith, e))
⟶-approach flown e = absurd (omega (arith, e))
⟶-approach touched e = absurd (omega (arith, e))
⟶-approach down_already e = absurd (omega (arith, e))

module _ {R : Type 0} ⦃p : Platform R⦄ where
  abbrev pub state_of : Task R → FlightState
  state_of t = t.base.flight_state

  -- Some first part of the events ends in the state of rank k.
  abbrev pub Passes : ℕ → List (Event R) → Task R → ℕ → Type 0
  Passes fuel es t k =
      (before : List (Event R)) × (after : List (Event R)) × (v : Task R) × (es ≡ before ++ after)
      × (run fuel before t ≡ some v)
      × (rank (state_of v) ≡ k)

  leave_init-state :
      (s : Services) (t : Task R)
      → (state_of (leave_init s t).0 ≡ state_of t) ⊎ (state_of (leave_init s t).0 ≡ takeoff)
  unfolding leave_init
  leave_init-state s t = ground arith

  switch_in-Switched :
      (f : FlightState) (s : Services) (t : Task R)
      → state_of t ≡ f
      → Switched f (state_of (switch_in f s t).0)
  unfolding switch_in
  switch_in-Switched FlightState.init s t e = elim (leave_init-state s t) [
    | inl same ↦ unswitched (same ∙ e)
    | inr new ↦ rw new start
  ]
  switch_in-Switched takeoff s t e = elim (Bool-cases (at_height t)) [
    | inl reached ↦ rw reached climb
    | inr not_yet ↦ rw not_yet (unswitched e)
  ]
  switch_in-Switched waypoint s t e =
      elim (Bool-cases (leb (length t.waypoints) t.current_waypoint_index)) [
        | inl done ↦ rw done fly_on
        | inr more ↦ rw more (unswitched e)
      ]
  switch_in-Switched _ s t e = unswitched e

  pub auto_land-state :
      (s : Services) (t : Task R)
      → state_of (with_base t (auto_land s.set_mode_available t.base)) ≡ state_of t
  unfolding auto_land
  auto_land-state s t = ground arith

  check-Switched :
      (s : Services) (t : Task R)
      → Switched (state_of t) (state_of (check_task_switch_conditions s t).0)
  unfolding check_task_switch_conditions
  check-Switched s t = elim (Bool-cases (check_emergency_condition t)) [
    | inl e ↦ rw e (unswitched (auto_land-state s t))
    | inr e ↦ rw e (switch_in-Switched (state_of t) s t refl)
  ]

  tilt_land-state : (t : Task R) → state_of (tilt_land t).0 ≡ state_of t
  unfolding tilt_land
  tilt_land-state t = ground arith

  finish_tilt_land-Acted :
      (t : Task R)
      → state_of t ≡ tiltland
      → Acted tiltland (state_of (finish_tilt_land (tilt_land t)))
  unfolding finish_tilt_land
  finish_tilt_land-Acted t e = elim (Bool-cases (tilt_land t).1) [
    | inl done ↦ rw done touch
    | inr more ↦ rw more (idle (tilt_land-state t ∙ e))
  ]

  land-state : (ready : Bool) (b : Base R) → (land ready b).flight_state ≡ b.flight_state
  unfolding land
  land-state ready b = ground arith

  act_in-Acted :
      (f : FlightState) (fuel : ℕ) (s : Services) (r : Readings) (t : Task R) {u : Task R}
      → state_of t ≡ f
      → act_in f fuel s r t ≡ some u
      → Acted f (state_of u)
  unfolding act_in
  act_in-Acted FlightState.init fuel s r t e h = idle (ground arith)
  act_in-Acted takeoff fuel s r t e h = idle (ground arith)
  act_in-Acted waypoint fuel s r t e h =
      idle ((mission-SameMission fuel r t h).control.flight_state ∙ e)
  act_in-Acted tiltland fuel s r t e h =
      rw (← ap state_of (some-injective _ _ h)) (finish_tilt_land-Acted t e)
  act_in-Acted FlightState.land fuel s r t e h =
      idle (sym (ap state_of (some-injective _ _ h)) ∙ land-state s.arming_ready t.base ∙ e)
  act_in-Acted approach fuel s r t e h = idle (ground arith)

  fly-⟶ :
      (fuel : ℕ) (s : Services) (r : Readings) (t : Task R) {u : Task R}
      → fly fuel s r t ≡ some u
      → state_of t ⟶ state_of u
  unfolding fly
  fly-⟶ fuel s r t h =
      let switched = (check_task_switch_conditions s t).0 in
      let told = with_base switched (task_state_pub switched.base) in
      joined (check-Switched s t) (act_in-Acted (state_of told) fuel s r told refl h)

  timer-⟶ :
      (fuel : ℕ) (s : Services) (r : Readings) (t : Task R) {u : Task R}
      → timer_callback fuel s r t ≡ some u
      → state_of t ⟶ state_of u
  unfolding timer_callback
  timer-⟶ fuel s r t {u} h = elim (Bool-cases t.setpoint_ready) [
    | inl ready ↦ fly-⟶ fuel s r t (sym (if_true _ _ ready) ∙ h)
    | inr early ↦ stays (ground arith)
  ]

  handle-⟶ :
      (fuel : ℕ) (e : Event R) (t : Task R) {u : Task R}
      → handle fuel e t ≡ some u
      → state_of t ⟶ state_of u
  unfolding handle
  handle-⟶ fuel (timer s r) t h = timer-⟶ fuel s r t h
  handle-⟶ fuel _ t h = stays (ground arith)

  Passes-cons :
      (fuel : ℕ) (e : Event R) (es : List (Event R)) (t v : Task R) (k : ℕ)
      → handle fuel e t ≡ some v
      → rank (state_of v) ≤ k
      → (rank (state_of v) < k → Passes fuel es v k)
      → Passes fuel (e ∷ es) t k
  unfolding run
  Passes-cons fuel e es t v k ok below later = elim (ℕ_discrete (rank (state_of v)) k) [
    | yes now ↦ (e ∷ [], es, v, refl, rw ok refl, now)
    | no not_now ↦
        let (before, after, w, split, ran, at) = later (omega (arith, below, not_now)) in
        (e ∷ before, after, w, ap (λ events. e ∷ events) split, rw ok ran, at)
  ]

  -- Over any run the flight state does not go back in the order INIT, TAKEOFF, WAYPOINT, TILTLAND,
  -- LAND; TAKEOFF and WAYPOINT are not jumped over: a run from before one of them to after it has
  -- been in it after some callback; and APPROACH is not entered.
  pub run-⟶ :
      (fuel : ℕ) (es : List (Event R)) (t : Task R) {u : Task R}
      → run fuel es t ≡ some u
      → (rank (state_of t) ≤ rank (state_of u))
        × ((k : ℕ) → k < 3 → rank (state_of t) < k → k < rank (state_of u) → Passes fuel es t k)
        × (rank (state_of u) ≡ 5 → rank (state_of t) ≡ 5)
  unfolding run
  run-⟶ fuel [] t {u} h =
      let same : rank (state_of t) ≡ rank (state_of u) =
        ap (λ v. rank (state_of v)) (some-injective _ _ h) in
      (
        omega (arith, same),
        λ k small low high. absurd (omega (arith, same, low, high)),
        λ last. same ∙ last,
      )
  run-⟶ fuel (e ∷ es) t {u} h = elim (Option-cases (handle fuel e t)) [
    | inl stuck ↦ absurd (ground (arith, stuck))
    | inr (v, ok) ↦
        let step = handle-⟶ fuel e t ok in
        let up = ⟶-rank step in
        let (rises, passes, enters) = run-⟶ fuel es v {u = u} (rw ok at h) in
        (
          omega (arith, up, rises),
          λ k small low high.
              Passes-cons fuel e es t v k ok (⟶-no_jump k step small low)
                (λ less. passes k small less high),
          λ last. ⟶-approach step (enters last),
        )
  ]
