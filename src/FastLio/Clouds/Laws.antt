-- ===== src/FastLio/Clouds/Laws.antt =====
-- mid360_handler() against default_handler().
use native.Mathlib.Decide.{ℕ_discrete}
use firt_version_ws.Prelude.{
  ℕ, ◌<◌, Bool, true, false, not, ◌||◌, if◌then◌else◌, ◌≡◌, ◌≢◌, refl, sym, ap, ◌∙◌, inl, inr,
  Bool-cases, some, List, [], ◌∷◌, ◌++◌, All, arith, ◌==◌, get_elem?, set, map, get_elem?-set,
  get_elem?-set_ne, get_elem?-replicate,
}
use firt_version_ws.Platform.{Platform, dec, ◌⊗◌}
use firt_version_ws.FastLio.Preprocess.{PointType, Preprocess, is_outside}
use firt_version_ws.FastLio.Clouds.{
  CloudPoint, Layers, new_layers, added_point, if_outside, default_handler, offset_time,
  mid360_from, mid360_handler,
}

abbrev occurs : ℕ → List ℕ → Bool
occurs i [] = false
occurs i (j ∷ js) = i == j || occurs i js

occurs_here : (i j : ℕ) (js : List ℕ) → j ≡ i → occurs i (j ∷ js) ≡ true
occurs_here i j js same = elim (Bool-cases (i == j)) [
  | inl eq ↦ rw eq refl
  | inr ne ↦ absurd (ground (arith, same, ne))
]

occurs_other : (i j : ℕ) (js : List ℕ) → j ≢ i → occurs i (j ∷ js) ≡ occurs i js
occurs_other i j js other = elim (Bool-cases (i == j)) [
  | inl eq ↦ absurd (other (ground (arith, eq)))
  | inr ne ↦ rw ne refl
]

module _ {R : Type 0} ⦃p : Platform R⦄ where
  -- The points whose line has occurred before.
  abbrev pub later_points : List ℕ → List (CloudPoint R) → List (CloudPoint R)
  later_points seen [] = []
  later_points seen (q ∷ points) =
      let rest = later_points (q.line ∷ seen) points in
      if occurs q.line seen then q ∷ rest else rest

  abbrev pub without_time : PointType R → PointType R
  without_time a = record a { curvature = dec 0 0 }

  -- The vectors have an element for each line, and is_first knows the lines that have occurred.
  record Knows (n : ℕ) (seen : List ℕ) (l : Layers R) : Type 0 where
    flags : (i : ℕ) → i < n → get_elem? l.is_first i ≡ some (not (occurs i seen))
    yaws : (i : ℕ) → i < n → (a : R) × (get_elem? l.yaw_fp i ≡ some a)
    times : (i : ℕ) → i < n → (a : R) × (get_elem? l.time_last i ≡ some a)

  new_layers-Knows : (n : ℕ) → Knows n [] (new_layers n)
  new_layers-Knows n = record {
    flags = λ i h. get_elem?-replicate n i true h;
    yaws = λ i h. (_, get_elem?-replicate n i (dec 0 0) h);
    times = λ i h. (_, get_elem?-replicate n i (dec 0 0) h);
  }

  set-present :
      (xs : List R) (j : ℕ) (b : R) (i : ℕ)
      → (a : R) × (get_elem? xs i ≡ some a)
      → (a : R) × (get_elem? (set xs j b) i ≡ some a)
  set-present xs j b i (a, e) = elim (ℕ_discrete j i) [
    | yes same ↦ (b, rw same (get_elem?-set xs i b e))
    | no other ↦ (a, get_elem?-set_ne xs j i b other ∙ e)
  ]

  -- A line's first point is noted.
  started-Knows :
      {n : ℕ} {seen : List ℕ} {l : Layers R} (line : ℕ) (yaw time : R)
      → line < n
      → Knows n seen l
      → Knows n (line ∷ seen) (record {
        is_first = set l.is_first line false;
        yaw_fp = set l.yaw_fp line yaw;
        time_last = set l.time_last line time;
      })
  started-Knows {n} {seen} {l} line yaw time below k = record {
    flags = λ i h. elim (ℕ_discrete line i) [
      | yes same ↦
          rw (occurs_here i line seen same, same) (get_elem?-set l.is_first i false (k.flags i h))
      | no other ↦
          rw (occurs_other i line seen other)
            (get_elem?-set_ne l.is_first line i false other ∙ k.flags i h)
    ];
    yaws = λ i h. set-present l.yaw_fp line yaw i (k.yaws i h);
    times = λ i h. set-present l.time_last line time i (k.times i h);
  }

  timed-Knows :
      {n : ℕ} {seen : List ℕ} {l : Layers R} (line : ℕ) (time : R)
      → occurs line seen ≡ true
      → Knows n seen l
      → Knows n (line ∷ seen) (record l { time_last = set l.time_last line time })
  timed-Knows {n} {seen} {l} line time old k = record {
    flags = λ i h. elim (ℕ_discrete line i) [
      | yes same ↦
          rw (occurs_here i line seen same)
            (k.flags i h ∙ ap (λ b. some (not b)) (ap (λ j. occurs j seen) (sym same) ∙ old))
      | no other ↦ rw (occurs_other i line seen other) (k.flags i h)
    ];
    yaws = k.yaws;
    times = λ i h. set-present l.time_last line time i (k.times i h);
  }

module _ {R : Type 0} ⦃p : Platform R⦄ where
  -- The time does not matter for the blind range.
  if_outside-without_time :
      (s : Preprocess R) (a : PointType R) (surf : List (PointType R))
      → map without_time (if_outside s a ++ surf)
        ≡ if_outside s (without_time a) ++ map without_time surf
  unfolding if_outside is_outside
  if_outside-without_time s a surf = elim (Bool-cases (is_outside s a)) [
    | inl out ↦ rw out refl
    | inr near ↦ rw near refl
  ]

module _ {R : Type 0} ⦃p : Platform R⦄ (atan2 : R → R → R) where
  mid360_from-places :
      (s : Preprocess R) (omega_l : R) (n : ℕ) (seen : List ℕ) (l : Layers R)
      (points : List (CloudPoint R))
      → Knows n seen l
      → All (λ q. q.line < n) points
      → (surf : List (PointType R)) × (mid360_from atan2 s omega_l l points ≡ some surf)
        × (map without_time surf ≡ default_handler s (later_points seen points))
  unfolding mid360_from default_handler
  mid360_from-places s omega_l n seen l [] k below = ([], refl, refl)
  mid360_from-places s omega_l n seen l (q ∷ points) k (here, below) =
      let (yaw, is_yaw) = k.yaws q.line here in
      let (time, is_time) = k.times q.line here in
      let flag = k.flags q.line here in
      elim (Bool-cases (occurs q.line seen)) [
        | inl old ↦
            let t = offset_time omega_l yaw time (atan2 q.y q.x ⊗ dec 572957 4) in
            let at : PointType R = record (added_point q) { curvature = t } in
            let (surf, run, places) =
              mid360_from-places s omega_l n (q.line ∷ seen) _ points (timed-Knows q.line t old k)
                below in
            (
              if_outside s at ++ surf,
              rw (flag, is_yaw, is_time, old, run) refl,
              rw old (
                  if_outside-without_time s at surf
                  ∙ ap (λ r. if_outside s (added_point q) ++ r) places),
            )
        | inr new ↦
            let (surf, run, places) =
              mid360_from-places s omega_l n (q.line ∷ seen) _ points
                (started-Knows q.line (atan2 q.y q.x ⊗ dec 572957 4) (dec 0 0) here k) below in
            (surf, rw (flag, is_yaw, is_time, new, run) refl, rw new places)
      ]

  pub mid360_handler-places :
      (to_double : ℕ → R) (s : Preprocess R) (pl_orig : List (CloudPoint R))
      → All (λ q. q.line < s.n_scans) pl_orig
      → (surf : List (PointType R)) × (mid360_handler atan2 to_double s pl_orig ≡ some surf)
        × (map without_time surf ≡ default_handler s (later_points [] pl_orig))
  unfolding mid360_handler
  mid360_handler-places to_double s pl_orig below =
      mid360_from-places s _ s.n_scans [] _ pl_orig (new_layers-Knows s.n_scans) below
