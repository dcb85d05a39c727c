-- ===== src/FastLio/Spinning/Laws.antt =====
-- velodyne_handler() against mid360_handler().
use firt_version_ws.Prelude.{
  if_false, ℕ, ◌+◌, ◌%◌, Bool, true, false, ◌≡◌, refl, ap, ◌∙◌, inl, inr, Option, Option-cases,
  none, some, List, [], ◌∷◌, arith, ◌>>=◌, get_elem?, map, last_or,
}
use firt_version_ws.Platform.{Platform, dec, lt, ◌⊗◌}
use firt_version_ws.FastLio.Preprocess.{PointType, Preprocess}
use firt_version_ws.FastLio.Clouds.{
  CloudPoint, Layers, new_layers, if_outside, mid360_point, mid360_from, mid360_handler,
}
use firt_version_ws.FastLio.Spinning.{
  Features, VelodynePoint, push_filtered, velodyne_untimed, velodyne_from, velodyne_handler,
}

-- A Velodyne point as a Livox one, the ring its line.
abbrev pub as_livox : {R : Type 0} → VelodynePoint R → CloudPoint R
as_livox q = record { x = q.x; y = q.y; z = q.z; intensity = q.intensity; line = q.ring }

-- Two reactions to three reads that agree on what is read.
after_reads-cong :
    {R : Type 0} {B : Type 0} (flag : Option Bool) (yaw time : Option R)
    (f g : Bool → R → R → Option B)
    → ((b c : R) → f true b c ≡ g true b c)
    → ((b c : R) → f false b c ≡ g false b c)
    → (flag >>= λ a. yaw >>= λ b. time >>= λ c. f a b c)
      ≡ (flag >>= λ a. yaw >>= λ b. time >>= λ c. g a b c)
after_reads-cong none yaw time f g on off = refl
after_reads-cong (some a) none time f g on off = refl
after_reads-cong (some a) (some b) none f g on off = refl
after_reads-cong (some true) (some b) (some c) f g on off = on b c
after_reads-cong (some false) (some b) (some c) f g on off = off b c

module _ {R : Type 0} ⦃p : Platform R⦄ where
  push_filtered-one :
      (s : Preprocess R) (i : ℕ) (a : PointType R)
      → s.point_filter_num ≡ 1
      → push_filtered s i a ≡ some (if_outside s a)
  unfolding push_filtered
  push_filtered-one s i a one = let zeroth : i % 1 ≡ 0 = omega arith in rw (one, zeroth) refl

module _ {R : Type 0} ⦃p : Platform R⦄ (atan2 : R → R → R) where
  velodyne_untimed-mid360_point :
      (s : Preprocess R) (omega_l : R) (l : Layers R) (i : ℕ) (q : VelodynePoint R)
      → s.point_filter_num ≡ 1
      → velodyne_untimed atan2 s omega_l l i q ≡ mid360_point atan2 s omega_l l (as_livox q)
  unfolding velodyne_untimed mid360_point
  velodyne_untimed-mid360_point s omega_l l i q one =
      after_reads-cong (get_elem? l.is_first q.ring) (get_elem? l.yaw_fp q.ring)
        (get_elem? l.time_last q.ring) _ _ (λ b c. refl)
        (λ b c. rw (push_filtered-one s i _ one) refl)

  velodyne_from-mid360_from :
      (s : Preprocess R) (scale omega_l : R) (l : Layers R) (i : ℕ)
      (points : List (VelodynePoint R))
      → s.point_filter_num ≡ 1
      → velodyne_from atan2 s scale omega_l false l i points
        ≡ mid360_from atan2 s omega_l l (map as_livox points)
  unfolding velodyne_from mid360_from
  velodyne_from-mid360_from s scale omega_l l i [] one = refl
  velodyne_from-mid360_from s scale omega_l l i (q ∷ points) one =
      rw (velodyne_untimed-mid360_point s omega_l l i q one)
        (elim (Option-cases (mid360_point atan2 s omega_l l (as_livox q))) [
          | inl gone ↦ rw gone refl
          | inr ((l', here), at) ↦
              rw (at, velodyne_from-mid360_from s scale omega_l l' (i + 1) points one) refl
        ])

  -- With features disabled, if every point is used and the last one has no time, velodyne_handler()
  -- makes of a cloud what mid360_handler() makes of the same points with the rings as their lines.
  pub velodyne_handler-mid360_handler :
      (features : Features R) (to_double : ℕ → R) (s : Preprocess R) (scale : R)
      (q : VelodynePoint R) (pl_orig : List (VelodynePoint R))
      → s.feature_enabled ≡ false
      → s.point_filter_num ≡ 1
      → lt (dec 0 0) (last_or q pl_orig).time ≡ false
      → velodyne_handler atan2 features to_double s scale (q ∷ pl_orig)
        ≡ mid360_handler atan2 to_double s (map as_livox (q ∷ pl_orig))
  unfolding velodyne_handler mid360_handler
  velodyne_handler-mid360_handler features to_double s scale q pl_orig plain one untimed =
      if_false _ _ plain
      ∙ ap
          (λ given.
            velodyne_from atan2 s scale (dec 361 3 ⊗ to_double s.scan_rate) given
              (new_layers s.n_scans) 0 (q ∷ pl_orig))
          untimed
      ∙ velodyne_from-mid360_from s scale _ (new_layers s.n_scans) 0 (q ∷ pl_orig) one
