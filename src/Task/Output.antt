-- ===== src/Task/Output.antt =====
-- What the parts of a timer callback send: which of it are setpoints, which are requests to the
-- autopilot, and how fast the vehicle is told to turn.
use firt_version_ws.Prelude.{
  if_true, if_false, ℕ, ◌+◌, Bool, true, false, ◌≡◌, refl, sym, ◌∙◌, some, List, [], ◌∷◌, arith,
  inl, inr, Bool-cases, Option-cases, if◌then◌else◌,
}
use text.Mathlib.Text.{◌==◌ as str_eq}
use mathlib.Core.Option.{some-injective}
use firt_version_ws.Platform.{Platform, neg, lt, clamp, dec}
use firt_version_ws.Offboard.State.{
  Base, Point, Command, position_setpoint, velocity_setpoint, arming_request, set_mode_request,
}
use firt_version_ws.Offboard.Setpoints.{
  TrajectorySegment, wrap_angle, follow, publish_position_setpoint_trajectory, segment,
  publish_velocity_body, publish_position_setpoint,
}
use firt_version_ws.Offboard.Services.{land}

module _ {R : Type 0} where
  -- How many setpoints there are.
  abbrev pub setpoints : List (Command R) → ℕ
  setpoints [] = 0
  setpoints (position_setpoint x y z q ∷ out) = setpoints out + 1
  setpoints (velocity_setpoint x y z w ∷ out) = setpoints out + 1
  setpoints (c ∷ out) = setpoints out

  -- How many requests to arm there are.
  abbrev pub arm_requests : List (Command R) → ℕ
  arm_requests [] = 0
  arm_requests (arming_request true ∷ out) = arm_requests out + 1
  arm_requests (c ∷ out) = arm_requests out

  -- How many requests for OFFBOARD mode there are.
  abbrev pub offboard_requests : List (Command R) → ℕ
  offboard_requests [] = 0
  offboard_requests (set_mode_request m ∷ out) =
      if str_eq m "OFFBOARD" then offboard_requests out + 1 else offboard_requests out
  offboard_requests (c ∷ out) = offboard_requests out

-- A bound that std::clamp can serve: a number, and not negative.
pub record IsLimit {R : Type 0} ⦃p : Platform R⦄ (m : R) : Type 0 where
  pub low : lt (neg m) (neg m) ≡ false
  pub high : lt m m ≡ false
  pub ordered : lt m (neg m) ≡ false

module _ {R : Type 0} ⦃p : Platform R⦄ where
  -- A velocity setpoint turns no faster than `m`, either way.
  abbrev pub TurnsWithin : R → Command R → Type 0
  TurnsWithin m (velocity_setpoint x y z w) = (lt w (neg m) ≡ false) × (lt m w ≡ false)
  TurnsWithin m _ = Unit {0}

  abbrev pub AllTurnWithin : R → List (Command R) → Type 0
  AllTurnWithin m [] = Unit {0}
  AllTurnWithin m (c ∷ out) = TurnsWithin m c × AllTurnWithin m out

  -- The limit is one, and everything sent so far keeps to it.
  abbrev pub IsSafe : Base R → Type 0
  IsSafe b = IsLimit b.max_angular_velocity × AllTurnWithin b.max_angular_velocity b.out

  -- The step from `b` to `c` sends one setpoint, and no request to arm or for OFFBOARD mode.
  pub record SendsSetpoint (b c : Base R) : Type 0 where
    pub one : setpoints c.out ≡ setpoints b.out + 1
    pub no_arm : arm_requests c.out ≡ arm_requests b.out
    pub no_offboard : offboard_requests c.out ≡ offboard_requests b.out
    pub safe : IsSafe b → IsSafe c

  clamp-within :
      (m v : R)
      → IsLimit m
      → (lt (clamp v (neg m) m) (neg m) ≡ false) × (lt m (clamp v (neg m) m) ≡ false)
  clamp-within m v l = ground arith

  pub velocity-SendsSetpoint :
      (x y z w : R) (b : Base R) → SendsSetpoint b (publish_velocity_body x y z w b)
  unfolding publish_velocity_body
  velocity-SendsSetpoint x y z w b = record {
    one = refl;
    no_arm = refl;
    no_offboard = refl;
    safe = λ (l, a). (l, (clamp-within b.max_angular_velocity w l, a));
  }

  pub position-SendsSetpoint :
      (x y z w : R) (b : Base R) → SendsSetpoint b (publish_position_setpoint x y z w b)
  unfolding publish_position_setpoint
  position-SendsSetpoint x y z w b = record {
    one = refl;
    no_arm = refl;
    no_offboard = refl;
    safe = λ (l, a). (l, (tt, a));
  }

  pub follow-SendsSetpoint :
      (fuel now : ℕ) (s : TrajectorySegment R) (target : R) (b : Base R) {c : Base R}
      → follow fuel now s target b ≡ some c
      → SendsSetpoint b c
  unfolding follow
  follow-SendsSetpoint fuel now s target b {c} h =
      elim (Option-cases (wrap_angle fuel (p.sub target b.current_yaw))) [
        | inl e ↦ absurd (ground (arith, e))
        | inr (d, e) ↦
            let k = some-injective _ _ (rw e at h) in
            rw (← k) (record {
              one = refl;
              no_arm = refl;
              no_offboard = refl;
              safe = λ (l, a). (l, (clamp-within b.max_angular_velocity (p.mul b.kp_yaw d) l, a));
            })
      ]

  pub trajectory-SendsSetpoint :
      (fuel now : ℕ) (start end : Point R) (target : R) (b : Base R) {c : Base R}
      → publish_position_setpoint_trajectory fuel now start end target b ≡ some c
      → SendsSetpoint b c
  unfolding publish_position_setpoint_trajectory
  trajectory-SendsSetpoint fuel now start end target b {c} h =
      let len = (segment start end).length in
      elim (Bool-cases (lt len (dec 1 6))) [
        | inl short ↦
            rw (← some-injective _ _ (sym (if_true _ _ short) ∙ h))
              (position-SendsSetpoint end.x end.y end.z target b)
        | inr long ↦
            follow-SendsSetpoint fuel now (segment start end) target b (sym (if_false _ _ long) ∙ h)
      ]

  pub land-SendsSetpoint : (ready : Bool) (b : Base R) → SendsSetpoint b (land ready b)
  unfolding land
  land-SendsSetpoint ready b = record {
    one = ground arith;
    no_arm = ground arith;
    no_offboard = ground arith;
    safe = λ (l, a). ground (arith, clamp-within b.max_angular_velocity (dec 0 0) l);
  }
