-- ===== src/FastLio/Preprocess/Laws.antt =====
-- Which points of a message make the scan.
use firt_version_ws.Prelude.{
  ℕ, zero, suc, ◌+◌, ◌-◌, ◌/◌, ◌%◌, ◌≤◌, Bool, false, ◌&&◌, ◌||◌, if◌then◌else◌, ◌≡◌, refl, ap, inl,
  inr, Bool-cases, Option, some, List, [], ◌∷◌, arith, length, ◌==◌, ltb, read_first-length, map,
  and32-bits_4_5,
}
use firt_version_ws.Platform.{Platform, dec, lt, ◌⊕◌, ◌⊖◌, ◌⊗◌}
use firt_version_ws.Livox.Messages.{CustomMsg, CustomPoint}
use firt_version_ws.FastLio.Sync.{tail}
use firt_version_ws.FastLio.Preprocess.{
  PointType, Preprocess, zero_point, is_valid, is_new, is_outside, point_of, avia_from,
  avia_handler,
}

-- The elements that pass a test.
abbrev pub select : {A : Type 0} → (A → Bool) → List A → List A
select f [] = []
select f (x ∷ xs) = let rest = select f xs in if f x then x ∷ rest else rest

-- After k elements one is taken, and then each n-th.
abbrev pub take_every : {A : Type 0} → ℕ → ℕ → List A → List A
take_every n k [] = []
take_every n zero (x ∷ xs) = x ∷ take_every n (n - 1) xs
take_every n (suc k) (x ∷ xs) = take_every n k xs

module _ {R : Type 0} ⦃p : Platform R⦄ where
  -- The line is one of the lidar's, and bit 5 of the tag is not set.
  abbrev pub is_accepted : Preprocess R → CustomPoint R → Bool
  is_accepted s q = ltb q.line s.n_scans && q.tag / 32 % 2 == 0

  abbrev pub is_off_zero : R → Bool
  is_off_zero c = lt (dec 1 7) (p.abs (p.to_float (c ⊖ dec 0 0)))

  -- Some coordinate is not 0, and the distance is above `blind`.
  abbrev pub is_far : Preprocess R → PointType R → Bool
  is_far s a =
      let squared =
        p.to_float
          (p.to_float (p.to_float (a.x ⊗ a.x) ⊕ p.to_float (a.y ⊗ a.y)) ⊕ p.to_float (a.z ⊗ a.z)) in
      (is_off_zero a.x || is_off_zero a.y || is_off_zero a.z) && lt (s.blind ⊗ s.blind) squared

  is_valid-is_accepted : (s : Preprocess R) (q : CustomPoint R) → is_valid s q ≡ is_accepted s q
  unfolding is_valid
  is_valid-is_accepted s q = ground (arith, and32-bits_4_5 q.tag)

  -- A point whose predecessor was not filtered is compared with the origin.
  is_new-is_far :
      (s : Preprocess R) (a : PointType R) → (is_new a zero_point && is_outside s a) ≡ is_far s a
  unfolding is_new is_outside
  is_new-is_far s a = refl

next_at : (v n : ℕ) → 2 ≤ n → 1 + v % n ≡ n → (v + 1) % n ≡ 0
next_at v n two e = grind arith

next_off : (v n k : ℕ) → 2 ≤ n → suc k + 1 + v % n ≡ n → (v + 1) % n ≡ v % n + 1
next_off v n k two e = grind arith

module _ {R : Type 0} ⦃p : Platform R⦄ (to_double : ℕ → R) (s : Preprocess R)
    (two : 2 ≤ s.point_filter_num) where
  abbrev pub chosen : ℕ → List (CustomPoint R) → List (PointType R)
  chosen k points =
      select (is_far s)
        (take_every s.point_filter_num k (map (point_of to_double) (select (is_accepted s) points)))

  avia_from-chosen :
      (previous : PointType R) (v k : ℕ) (points : List (CustomPoint R))
      → k + 1 + v % s.point_filter_num ≡ s.point_filter_num
      → (k ≡ 0 → previous ≡ zero_point)
      → avia_from to_double s previous v points ≡ chosen k points
  unfolding avia_from
  avia_from-chosen previous v k [] count old = refl
  avia_from-chosen previous v zero (q ∷ points) count old =
      let at = next_at v s.point_filter_num two count in
      let accept = is_valid-is_accepted s q in
      elim (Bool-cases (is_accepted s q)) [
        | inr refused ↦
            rw (accept, refused) (avia_from-chosen zero_point v zero points count (λ e. refl))
        | inl accepted ↦
            let test = is_new-is_far s (point_of to_double q) in
            let rest =
              avia_from-chosen (point_of to_double q) (v + 1) (s.point_filter_num - 1) points
                (omega (arith, at, two)) (λ e. absurd (omega (arith, e, two))) in
            elim (Bool-cases (is_far s (point_of to_double q))) [
              | inl far ↦
                  rw (accept, accepted, at, old refl, test, far)
                    (ap (λ r. point_of to_double q ∷ r) rest)
              | inr near ↦ rw (accept, accepted, at, old refl, test, near) rest
            ]
      ]
  avia_from-chosen previous v (suc k) (q ∷ points) count old =
      let off = next_off v s.point_filter_num k two count in
      let accept = is_valid-is_accepted s q in
      elim (Bool-cases (is_accepted s q)) [
        | inr refused ↦
            rw (accept, refused) (avia_from-chosen zero_point v (suc k) points count (λ e. refl))
        | inl accepted ↦
            let unequal : ((v + 1) % s.point_filter_num == 0) ≡ false = rw off (ground arith) in
            let rest =
              avia_from-chosen zero_point (v + 1) k points (omega (arith, off, count))
                (λ e. refl) in
            rw (accept, accepted, unequal) rest
      ]

  -- With features disabled and a point_filter_num of 2 or more, avia_handler() makes of a message
  -- with as many points as it says: of the points after the first one those whose line is below
  -- N_SCANS and whose tag's bit 5 is not set; of these every point_filter_num-th; and of these, in
  -- their order, those with a coordinate other than 0 (by more than 1e-7) and a distance above
  -- `blind`.
  pub avia_handler_lem :
      (features : Preprocess R → CustomMsg R → Option (List (PointType R))) (msg : CustomMsg R)
      → s.feature_enabled ≡ false
      → msg.point_num ≡ length msg.points
      → avia_handler to_double features s msg
        ≡ some (chosen (s.point_filter_num - 1) (tail msg.points))
  unfolding avia_handler
  avia_handler_lem features msg plain whole =
      let positive : (s.point_filter_num == 0) ≡ false = ground (arith, two) in
      let first : 0 % s.point_filter_num ≡ 0 = ground arith in
      rw (plain, whole, read_first-length msg.points, positive)
        (ap some (
          avia_from-chosen zero_point 0 (s.point_filter_num - 1) (tail msg.points)
            (omega (arith, two, first)) (λ e. refl)))
