-- ===== src/Offboard/Angles.antt =====
-- The loops that bring an angle into [-pi, pi], in shortest_angular_distance() and in the trajectory
-- follower.
use firt_version_ws.Prelude.{
  if_true, if_false, ℕ, zero, suc, ◌<◌, ◌≤◌, true, false, ◌≡◌, ◌∙◌, some, arith, inl, inr,
  Bool-cases, ℤ,
}
use firt_version_ws.Platform.{Platform, ◌⊕◌, ◌⊖◌, ◌⊗◌, dec, neg, lt}
use firt_version_ws.Platform.Millis.{millis, magnitude}
use firt_version_ws.Offboard.Setpoints.{wrap_down, wrap_up, wrap_angle, shortest_angular_distance}

module _ {R : Type 0} ⦃p : Platform R⦄ where
  abbrev pub turn : R
  turn = dec 2 0 ⊗ p.pi

  -- Neither loop would go on at `d`.
  pub record InTurn (d : R) : Type 0 where
    pub high : lt p.pi d ≡ false
    pub low : lt d (neg p.pi) ≡ false

  -- `r` comes from `d` by whole turns.
  pub data Turned : R → R → Type 0 where
    same : {d : R} → Turned d d
    down : {d r : R} → Turned (d ⊖ turn) r → Turned d r
    up : {d r : R} → Turned (d ⊕ turn) r → Turned d r

  Turned-trans : {a b c : R} → Turned a b → Turned b c → Turned a c
  Turned-trans same k = k
  Turned-trans (down h) k = down (Turned-trans h k)
  Turned-trans (up h) k = up (Turned-trans h k)

-- What the loops need of the numbers: a count of turns that falls with each turn taken, which an
-- angle has unless it is infinite or too large for a turn to change it; and a turn up from below -pi
-- does not pass pi.
pub record CountsTurns (R : Type 0) ⦃p : Platform R⦄ : Type 0 where
  pub turns : R → ℕ
  pub falls_down : (d : R) → lt p.pi d ≡ true → turns (d ⊖ turn) < turns d
  pub falls_up : (d : R) → lt d (neg p.pi) ≡ true → turns (d ⊕ turn) < turns d
  pub stays_low : (d : R) → lt d (neg p.pi) ≡ true → lt p.pi (d ⊕ turn) ≡ false

module _ {R : Type 0} ⦃p : Platform R⦄ (laws : CountsTurns R) where
  open laws use {turns, falls_down, falls_up, stays_low}

  wrap_down_total :
      (fuel : ℕ) (d : R)
      → turns d < fuel
      → (r : R) × (wrap_down fuel d ≡ some r)
        × (lt p.pi r ≡ false)
        × (turns r ≤ turns d)
        × Turned d r
  unfolding wrap_down
  wrap_down_total zero d l = elim l [ ]
  wrap_down_total (suc fuel) d l = elim (Bool-cases (lt p.pi d)) [
    | inl above ↦
        let fewer = falls_down d above in
        let (r, e, high, less, t) = wrap_down_total fuel (d ⊖ turn) (omega arith) in
        (r, if_true _ _ above ∙ e, high, omega arith, down t)
    | inr fine ↦ (d, if_false _ _ fine, fine, omega arith, same)
  ]

  wrap_up_total :
      (fuel : ℕ) (d : R)
      → turns d < fuel
      → lt p.pi d ≡ false
      → (r : R) × (wrap_up fuel d ≡ some r) × InTurn r × Turned d r
  unfolding wrap_up
  wrap_up_total zero d l h = elim l [ ]
  wrap_up_total (suc fuel) d l h = elim (Bool-cases (lt d (neg p.pi))) [
    | inl below ↦
        let fewer = falls_up d below in
        let (r, e, fits, t) = wrap_up_total fuel (d ⊕ turn) (omega arith) (stays_low d below) in
        (r, if_true _ _ below ∙ e, fits, up t)
    | inr fine ↦ (d, if_false _ _ fine, record { high = h; low = fine }, same)
  ]

  -- With more fuel than the angle counts turns, both loops end, at an angle in [-pi, pi] that differs
  -- from the first by whole turns.
  pub wrap_angle_total :
      (fuel : ℕ) (d : R)
      → turns d < fuel
      → (r : R) × (wrap_angle fuel d ≡ some r) × InTurn r × Turned d r
  unfolding wrap_angle
  wrap_angle_total fuel d l =
      let (a, e, high, less, t) = wrap_down_total fuel d l in
      let (r, e', fits, t') = wrap_up_total fuel a (omega arith) high in
      (r, rw (e, e'), fits, Turned-trans t t')

  -- If the numbers count turns, shortest_angular_distance(from, to) ends with more fuel than the
  -- difference of its angles counts, in [-pi, pi], at that difference up to whole turns.
  pub shortest_angular_distance_total :
      (fuel : ℕ) (from to : R)
      → turns (to ⊖ from) < fuel
      → (r : R) × (shortest_angular_distance fuel from to ≡ some r)
        × InTurn r
        × Turned (to ⊖ from) r
  unfolding shortest_angular_distance
  shortest_angular_distance_total fuel from to l = wrap_angle_total fuel (to ⊖ from) l

-- In range one round of fuel is enough.
pub wrap_angle-InTurn :
    {R : Type 0} ⦃p : Platform R⦄ (fuel : ℕ) (d : R) → InTurn d → wrap_angle (suc fuel) d ≡ some d
unfolding wrap_angle wrap_down wrap_up
wrap_angle-InTurn fuel d fits = ground arith

abbrev pub pi_millis : ℤ
pi_millis = millis.pi

pub magnitude-down :
    (d : ℤ) → lt pi_millis d ≡ true → magnitude (d ⊖ dec 2 0 ⊗ pi_millis) < magnitude d
magnitude-down d h = ground arith

pub magnitude-up :
    (d : ℤ) → lt d (neg pi_millis) ≡ true → magnitude (d ⊕ dec 2 0 ⊗ pi_millis) < magnitude d
magnitude-up d h = ground arith

pub up_stays_low :
    (d : ℤ) → lt d (neg pi_millis) ≡ true → lt pi_millis (d ⊕ dec 2 0 ⊗ pi_millis) ≡ false
up_stays_low d h = ground arith

-- The thousandths count turns.
abbrev pub millis_turns : CountsTurns ℤ
millis_turns = record {
  turns = magnitude;
  falls_down = magnitude-down;
  falls_up = magnitude-up;
  stays_low = up_stays_low;
}
