-- ===== src/Task/WarmUp.antt =====
-- The warm-up: how long it lasts, and that nothing but the home setpoint is sent in it.
use mathlib.Core.Option.{some-injective}
use Prim.Native.Nat.{min}
use native.Mathlib.Numerals.{add-one}
use native.Mathlib.Nat.{add-zero, add_assoc}
use firt_version_ws.Prelude.{
  zero, if_true, ap, ℕ, suc, ◌+◌, ◌≤◌, false, ◌≡◌, refl, sym, ◌∙◌, some, List, [], ◌∷◌, arith, inl,
  inr, Bool-cases, Option-cases, ltb,
}
use firt_version_ws.Platform.{Platform, dec}
use firt_version_ws.Offboard.State.{Command, position_setpoint, FlightState, waypoint}
use firt_version_ws.Offboard.Services.{task_state_pub}
use firt_version_ws.Task.State.{Task}
use firt_version_ws.Task.Mission.{Readings}
use firt_version_ws.Task.TiltLand.{tilt_land}
use firt_version_ws.Task.Switch.{Services, with_base, check_task_switch_conditions}
use firt_version_ws.Task.Tick.{
  Event, timer, warm_up, act_in, fly, finish_tilt_land, timer_callback, handle, run,
}
use firt_version_ws.Task.Frame.{mission-SameMission}
use firt_version_ws.Task.Sends.{check-SameCourse}

module _ {R : Type 0} where
  -- How many timer callbacks there are.
  abbrev pub timers : List (Event R) → ℕ
  timers [] = 0
  timers (timer s r ∷ es) = suc (timers es)
  timers (e ∷ es) = timers es

  -- The counter and the flag of the warm-up after `n` timer callbacks.
  pub record IsWarmedBy (n : ℕ) (t : Task R) : Type 0 where
    pub counter : t.offboard_setpoint_counter ≡ min 51 n
    pub ready : t.setpoint_ready ≡ ltb 50 n

module _ {R : Type 0} ⦃p : Platform R⦄ where
  record SameWarmUp (t u : Task R) : Type 0 where
    ready : u.setpoint_ready ≡ t.setpoint_ready
    counter : u.offboard_setpoint_counter ≡ t.offboard_setpoint_counter

  act_in-SameWarmUp :
      (f : FlightState) (fuel : ℕ) (s : Services) (r : Readings) (t : Task R) {u : Task R}
      → act_in f fuel s r t ≡ some u
      → SameWarmUp t u
  unfolding act_in finish_tilt_land tilt_land
  act_in-SameWarmUp waypoint fuel s r t h =
      let same = mission-SameMission fuel r t h in
      record { ready = same.ready; counter = same.counter }
  act_in-SameWarmUp _ fuel s r t h = ground arith

  fly-SameWarmUp :
      (fuel : ℕ) (s : Services) (r : Readings) (t : Task R) {u : Task R}
      → fly fuel s r t ≡ some u
      → SameWarmUp t u
  unfolding fly
  fly-SameWarmUp fuel s r t {u} h =
      let switched = (check_task_switch_conditions s t).0 in
      let told = with_base switched (task_state_pub switched.base) in
      let after = act_in-SameWarmUp told.base.flight_state fuel s r told h in
      let before = check-SameCourse s t in
      record { ready = after.ready ∙ before.ready; counter = after.counter ∙ before.counter }

  timer-IsWarmedBy :
      (fuel : ℕ) (s : Services) (r : Readings) (t : Task R) (n : ℕ) {u : Task R}
      → timer_callback fuel s r t ≡ some u
      → IsWarmedBy n t
      → IsWarmedBy (suc n) u
  unfolding timer_callback warm_up
  timer-IsWarmedBy fuel s r t n {u} h w = elim (Bool-cases t.setpoint_ready) [
    | inl ready ↦
        let same = fly-SameWarmUp fuel s r t {u = u} (sym (if_true _ _ ready) ∙ h) in
        ground (arith, same, w, ready)
    | inr early ↦ ground (arith, w, early)
  ]

  handle-IsWarmedBy :
      (fuel : ℕ) (e : Event R) (t : Task R) (n : ℕ) {u : Task R}
      → handle fuel e t ≡ some u
      → IsWarmedBy n t
      → IsWarmedBy (n + timers (e ∷ [])) u
  unfolding handle
  handle-IsWarmedBy fuel (timer s r) t n h w = rw add-one (timer-IsWarmedBy fuel s r t n h w)
  handle-IsWarmedBy fuel _ t n h w = rw add-zero (ground arith)

  timers_cons : (e : Event R) (es : List (Event R)) → timers (e ∷ es) ≡ timers (e ∷ []) + timers es
  timers_cons (timer s r) es = omega arith
  timers_cons _ es = omega arith

  run-IsWarmedBy :
      (fuel : ℕ) (es : List (Event R)) (t : Task R) (n : ℕ) {u : Task R}
      → run fuel es t ≡ some u
      → IsWarmedBy n t
      → IsWarmedBy (n + timers es) u
  unfolding run
  run-IsWarmedBy fuel [] t n {u} h w = rw (add-zero, ← some-injective _ _ h) w
  run-IsWarmedBy fuel (e ∷ es) t n {u} h w = elim (Option-cases (handle fuel e t)) [
    | inl stuck ↦ absurd (ground (arith, stuck))
    | inr (v, ok) ↦
        rw (timers_cons e es, ← add_assoc)
          (run-IsWarmedBy fuel es v (n + timers (e ∷ [])) (rw ok at h)
            (handle-IsWarmedBy fuel e t n ok w))
  ]

  -- After any run from a node whose timer has not yet run, the setpoints count as ready exactly when
  -- the timer has run more than 50 times, and the counter stands at the number of runs, at most 51.
  pub run_ready :
      (fuel : ℕ) (es : List (Event R)) (t : Task R) {u : Task R}
      → t.offboard_setpoint_counter ≡ 0
      → t.setpoint_ready ≡ false
      → run fuel es t ≡ some u
      → (u.setpoint_ready ≡ ltb 50 (timers es)) × (u.offboard_setpoint_counter ≡ min 51 (timers es))
  run_ready fuel es t {u} c r h =
      let w = run-IsWarmedBy fuel es t 0 {u = u} h (record { counter = c; ready = r }) in
      ground (arith, w)

  -- `n` home setpoints on top of what was sent.
  abbrev pub homes : ℕ → List (Command R) → List (Command R)
  homes zero out = out
  homes (suc n) out = homes n (
      position_setpoint (dec 0 0) (dec 0 0) (dec 0 0) (p.set_rpy (dec 0 0) (dec 0 0) (dec 0 0))
      ∷ out)

  record IsQuiet (n : ℕ) (t u : Task R) : Type 0 where
    out : u.base.out ≡ homes n t.base.out
    state : u.base.flight_state ≡ t.base.flight_state

  handle-IsQuiet :
      (fuel : ℕ) (e : Event R) (t : Task R) (n : ℕ) {u : Task R}
      → handle fuel e t ≡ some u
      → IsWarmedBy n t
      → n + timers (e ∷ []) ≤ 51
      → IsQuiet (timers (e ∷ [])) t u
  unfolding handle timer_callback warm_up
  handle-IsQuiet fuel (timer s r) t n h w l =
      let early : t.setpoint_ready ≡ false = ground (arith, w) in ground (arith, early)
  handle-IsQuiet fuel _ t n h w l = ground arith

  homes-timers :
      (e : Event R) (es : List (Event R)) (out : List (Command R))
      → homes (timers es) (homes (timers (e ∷ [])) out) ≡ homes (timers (e ∷ es)) out
  homes-timers (timer s r) es out = refl
  homes-timers _ es out = refl

  run-IsQuiet :
      (fuel : ℕ) (es : List (Event R)) (t : Task R) (n : ℕ) {u : Task R}
      → run fuel es t ≡ some u
      → IsWarmedBy n t
      → n + timers es ≤ 51
      → IsQuiet (timers es) t u
  unfolding run
  run-IsQuiet fuel [] t n {u} h w l = ground arith
  run-IsQuiet fuel (e ∷ es) t n {u} h w l = elim (Option-cases (handle fuel e t)) [
    | inl stuck ↦ absurd (ground (arith, stuck))
    | inr (v, ok) ↦
        let count = timers_cons e es in
        let first = handle-IsQuiet fuel e t n ok w (omega arith) in
        let warmed = handle-IsWarmedBy fuel e t n ok w in
        let rest = run-IsQuiet fuel es v (n + timers (e ∷ [])) (rw ok at h) warmed (omega arith) in
        record {
          out = rest.out ∙ ap (homes (timers es)) first.out ∙ homes-timers e es t.base.out;
          state = rest.state ∙ first.state;
        }
  ]

  -- From a node whose timer has not yet run, the first 51 runs of the timer, whatever comes between
  -- them, send one home setpoint each and nothing else, and leave the flight state as it is.
  pub run_warm_up :
      (fuel : ℕ) (es : List (Event R)) (t : Task R) {u : Task R}
      → t.offboard_setpoint_counter ≡ 0
      → t.setpoint_ready ≡ false
      → timers es ≤ 51
      → run fuel es t ≡ some u
      → (u.base.out ≡ homes (timers es) t.base.out) × (u.base.flight_state ≡ t.base.flight_state)
  run_warm_up fuel es t {u} c r l h =
      let quiet =
        run-IsQuiet fuel es t 0 {u = u} h (record { counter = c; ready = r }) (omega arith) in
      (quiet.out, quiet.state)
