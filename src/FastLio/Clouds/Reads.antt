-- ===== src/FastLio/Clouds/Reads.antt =====
-- mid360_handler() and the ends of its vectors, and what it returns.
use mathlib.Core.Option.{some-injective}
use firt_version_ws.Prelude.{
  ℕ, ◌≤◌, Bool, true, false, ◌≡◌, refl, sym, ap, subst, inl, inr, Option, Option-cases, none, some,
  List, [], ◌∷◌, ◌++◌, arith, length, length-set, length-replicate, ◌>>=◌, get_elem?,
  get_elem?-none, All, map, ltb, Bool-cases, ◌<◌, ◌⊎◌,
}
use firt_version_ws.Platform.{Platform}
use firt_version_ws.FastLio.Preprocess.{PointType, Preprocess}
use firt_version_ws.FastLio.Clouds.{
  CloudPoint, Layers, mid360_point, mid360_from, mid360_handler, default_handler,
}
use firt_version_ws.FastLio.Clouds.Laws.{without_time, later_points, mid360_handler-places}

-- What holds of each result holds after three reads.
after_reads :
    {R : Type 0} {B : Type 0} (P : B → Type 0) (flag : Option Bool) (yaw time : Option R)
    (f : Bool → R → R → B) {next : B}
    → ((b c : R) → P (f true b c))
    → ((b c : R) → P (f false b c))
    → (flag >>= λ a. yaw >>= λ b. time >>= λ c. some (f a b c)) ≡ some next
    → P next
after_reads P none yaw time f on off h = cc
after_reads P (some a) none time f on off h = cc
after_reads P (some a) (some b) none f on off h = cc
after_reads P (some true) (some b) (some c) f on off h = subst P (some-injective _ _ h) (on b c)
after_reads P (some false) (some b) (some c) f on off h = subst P (some-injective _ _ h) (off b c)

module _ {R : Type 0} where
  abbrev pub Below : ℕ → List (CloudPoint R) → Type 0
  Below n = All (λ q. q.line < n)

  -- The line of some point is n or above.
  abbrev pub Exceeds : ℕ → List (CloudPoint R) → Type 0
  Exceeds n points =
      (before : List (CloudPoint R)) × (q : CloudPoint R) × (after : List (CloudPoint R)) × (points
        ≡ before ++ q ∷ after)
      × (n ≤ q.line)

  Below-or_Exceeds : (n : ℕ) (points : List (CloudPoint R)) → Below n points ⊎ Exceeds n points
  Below-or_Exceeds n [] = inl tt
  Below-or_Exceeds n (q ∷ points) = elim (Bool-cases (ltb q.line n)) [
    | inr above ↦ inr ([], q, points, refl, ground (arith, above))
    | inl below ↦ elim (Below-or_Exceeds n points) [
      | inl rest ↦ inl (ground (arith, below), rest)
      | inr (before, r, after, split, above) ↦
          inr (q ∷ before, r, after, ap (λ ps. q ∷ ps) split, above)
    ]
  ]

module _ {R : Type 0} ⦃p : Platform R⦄ (atan2 : R → R → R) where
  mid360_point-length :
      (s : Preprocess R) (omega_l : R) (l l' : Layers R) (q : CloudPoint R)
      (here : List (PointType R))
      → mid360_point atan2 s omega_l l q ≡ some (l', here)
      → length l'.is_first ≡ length l.is_first
  unfolding mid360_point
  mid360_point-length s omega_l l l' q here h =
      after_reads (λ r. length r.0.is_first ≡ length l.is_first) (get_elem? l.is_first q.line)
        (get_elem? l.yaw_fp q.line) (get_elem? l.time_last q.line) _
        (λ b c. length-set l.is_first q.line false) (λ b c. refl) h

  mid360_from-none :
      (s : Preprocess R) (omega_l : R) (l : Layers R) (before after : List (CloudPoint R))
      (q : CloudPoint R)
      → length l.is_first ≤ q.line
      → mid360_from atan2 s omega_l l (before ++ q ∷ after) ≡ none
  unfolding mid360_from mid360_point
  mid360_from-none s omega_l l [] after q above = rw (get_elem?-none l.is_first q.line above) refl
  mid360_from-none s omega_l l (r ∷ before) after q above =
      elim (Option-cases (mid360_point atan2 s omega_l l r)) [
        | inl gone ↦ rw gone refl
        | inr ((l', here), at) ↦
            let same = mid360_point-length s omega_l l l' r here at in
            let rest = mid360_from-none s omega_l l' before after q (omega (arith, above, same)) in
            rw (at, rest) refl
      ]

  mid360_handler-none :
      (to_double : ℕ → R) (s : Preprocess R) (before after : List (CloudPoint R)) (q : CloudPoint R)
      → s.n_scans ≤ q.line
      → mid360_handler atan2 to_double s (before ++ q ∷ after) ≡ none
  unfolding mid360_handler
  mid360_handler-none to_double s before after q above =
      mid360_from-none s _ _ before after q
        (subst (λ n. n ≤ q.line) (sym (length-replicate s.n_scans true)) above)

  -- Either the line of every point is below N_SCANS, and mid360_handler() returns a scan that, the
  -- times apart, is what default_handler() makes of the points that are not the first one of their
  -- line; or some point's line is N_SCANS or above, and it reads outside its vectors.
  pub mid360_handler_lem :
      (to_double : ℕ → R) (s : Preprocess R) (pl_orig : List (CloudPoint R))
      → (Below s.n_scans pl_orig
          × (surf : List (PointType R)) × (mid360_handler atan2 to_double s pl_orig ≡ some surf)
          × (map without_time surf ≡ default_handler s (later_points [] pl_orig)))
        ⊎ (Exceeds s.n_scans pl_orig × (mid360_handler atan2 to_double s pl_orig ≡ none))
  mid360_handler_lem to_double s pl_orig = elim (Below-or_Exceeds s.n_scans pl_orig) [
    | inl below ↦
        let (surf, run, places) = mid360_handler-places atan2 to_double s pl_orig below in
        inl (below, surf, run, places)
    | inr (before, q, after, split, above) ↦ inr (
      (before, q, after, split, above),
      rw split (mid360_handler-none to_double s before after q above),
    )
  ]
