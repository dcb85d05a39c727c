-- ===== src/Offboard/Pid.antt =====
-- class PIDController of offboard/pid_controller.hpp.
use firt_version_ws.Prelude.{List, [], ◌∷◌, ◌≡◌, refl}
use firt_version_ws.Platform.{Platform, ◌⊕◌, ◌⊖◌, ◌⊗◌, ◌⊘◌, dec}

pub record PidController (R : Type 0) : Type 0 where
  pub kp : R
  pub ki : R
  pub kd : R
  pub prev_error : R
  pub integral : R

-- An error and the time since the one before.
pub record Sample (R : Type 0) : Type 0 where
  pub error : R
  pub dt : R

module _ {R : Type 0} ⦃p : Platform R⦄ where
  unfoldable pub new_pid : R → R → R → PidController R
  new_pid kp ki kd = record { kp = kp; ki = ki; kd = kd; prev_error = dec 0 0; integral = dec 0 0 }

  unfoldable pub compute : R → R → PidController R → PidController R × R
  compute error dt c =
      let integral = c.integral ⊕ error ⊗ dt in
      let derivative = (error ⊖ c.prev_error) ⊘ dt in
      (
        record c { integral = integral; prev_error = error },
        c.kp ⊗ error ⊕ c.ki ⊗ integral ⊕ c.kd ⊗ derivative,
      )

  unfoldable pub reset : PidController R → PidController R
  reset c = record c { prev_error = dec 0 0; integral = dec 0 0 }

  -- The controller after some samples.
  unfoldable pub feed : List (Sample R) → PidController R → PidController R
  feed [] c = c
  feed (s ∷ ss) c = feed ss (compute s.error s.dt c).0

  -- The errors weighted by their times, summed from `acc` on in the order in which they come.
  abbrev pub sum_errors : R → List (Sample R) → R
  sum_errors acc [] = acc
  sum_errors acc (s ∷ ss) = sum_errors (acc ⊕ s.error ⊗ s.dt) ss

  feed-integral :
      (ss : List (Sample R)) (c : PidController R) → (feed ss c).integral ≡ sum_errors c.integral ss
  unfolding feed compute
  feed-integral [] c = refl
  feed-integral (s ∷ ss) c = feed-integral ss (compute s.error s.dt c).0

  feed-gains :
      (ss : List (Sample R)) (c : PidController R)
      → ((feed ss c).kp ≡ c.kp) × ((feed ss c).ki ≡ c.ki) × ((feed ss c).kd ≡ c.kd)
  unfolding feed compute
  feed-gains [] c = (refl, refl, refl)
  feed-gains (s ∷ ss) c = feed-gains ss (compute s.error s.dt c).0

  -- After any samples a reset makes the controller a new one with its gains, and before it the
  -- integral is the sum of the errors weighted by their times.
  pub reset-feed :
      (ss : List (Sample R)) (kp ki kd : R)
      → (reset (feed ss (new_pid kp ki kd)) ≡ new_pid kp ki kd)
        × ((feed ss (new_pid kp ki kd)).integral ≡ sum_errors (dec 0 0) ss)
  unfolding reset new_pid
  reset-feed ss kp ki kd =
      let (p, i, d) = feed-gains ss (new_pid kp ki kd) in
      (rw (p, i, d) refl, feed-integral ss (new_pid kp ki kd))
