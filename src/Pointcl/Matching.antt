-- ===== src/Pointcl/Matching.antt =====
-- The matching of detections to poles: which detection a pole takes, and that none is taken twice.
use firt_version_ws.Prelude.{
  ap, ℕ, zero, suc, ◌+◌, Bool, true, false, ◌≡◌, refl, sym, ◌∙◌, Option, none, some, List, [], ◌∷◌,
  arith, inl, inr, ◌⊎◌, Option-cases, get_elem?, if◌then◌else◌,
}
use mathlib.Core.Option.{some-injective}
use firt_version_ws.Platform.{Platform, lt, dec}
use firt_version_ws.Pointcl.Detect.{PoleInfo, PoleParams}
use firt_version_ws.Pointcl.Track.{
  Best, distance_between, nearest_from, nearest, match_pole, take_match, associate, refresh, lose,
  mark_used, clear_updated, count_new,
}
use firt_version_ws.Pointcl.Ids.{associate-none, associate-some}

module _ {R : Type 0} where
  -- How many poles are marked as updated.
  abbrev pub count_updated : List (PoleInfo R) → ℕ
  count_updated [] = 0
  count_updated (pole ∷ poles) =
      let rest = count_updated poles in if pole.is_updated then rest + 1 else rest

  count_new-mark_used :
      (ds : List (PoleInfo R)) (i : ℕ) {d : PoleInfo R}
      → get_elem? ds i ≡ some d
      → d.is_used ≡ false
      → count_new (mark_used i ds) + 1 ≡ count_new ds
  unfolding count_new mark_used
  count_new-mark_used [] i e u = ground arith
  count_new-mark_used (x ∷ ds) zero e u = ground arith
  count_new-mark_used (x ∷ ds) (suc i) e u = ground (arith, count_new-mark_used ds i e u)

  -- No pole is marked as updated.
  abbrev pub AllClear : List (PoleInfo R) → Type 0
  AllClear [] = Unit {0}
  AllClear (pole ∷ poles) = (pole.is_updated ≡ false) × AllClear poles

  clear_updated-AllClear : (poles : List (PoleInfo R)) → AllClear (clear_updated poles)
  unfolding clear_updated
  clear_updated-AllClear [] = tt
  clear_updated-AllClear (pole ∷ poles) = (refl, clear_updated-AllClear poles)

module _ {R : Type 0} ⦃p : Platform R⦄ where
  -- `best` stands for an unused detection of `ds`, the index counted from `u`.
  pub record IsFound (u : ℕ) (best : Best R) (pole : PoleInfo R) (ds : List (PoleInfo R)) (k : ℕ)
      : Type 0 where
    pub index : ℕ
    pub detection : PoleInfo R
    pub shifted : k ≡ u + index
    pub there : get_elem? ds index ≡ some detection
    pub unused : detection.is_used ≡ false
    pub distance : best.distance ≡ distance_between pole detection

  unfoldable pub better : ℕ → Best R → PoleInfo R → PoleInfo R → Best R
  better u best pole d =
      if d.is_used
      then best
      else if lt (distance_between pole d) best.distance
      then record { distance = distance_between pole d; num = some u }
      else best

  pub nearest_from-cons :
      (u : ℕ) (best : Best R) (pole d : PoleInfo R) (ds : List (PoleInfo R))
      → nearest_from u best pole (d ∷ ds) ≡ nearest_from (u + 1) (better u best pole d) pole ds
  unfolding nearest_from better
  nearest_from-cons u best pole d ds = refl

  pub better-cases :
      (u : ℕ) (best : Best R) (pole d : PoleInfo R)
      → (better u best pole d ≡ best)
        ⊎ ((d.is_used ≡ false)
            × (better u best pole d ≡ record { distance = distance_between pole d; num = some u }))
  unfolding better
  better-cases u best pole d = ground arith

  nearest_from-IsFound :
      (u : ℕ) (best : Best R) (pole : PoleInfo R) (ds : List (PoleInfo R)) {k : ℕ}
      → (nearest_from u best pole ds).num ≡ some k
      → ((best.num ≡ some k) × (nearest_from u best pole ds ≡ best))
        ⊎ IsFound u (nearest_from u best pole ds) pole ds k
  nearest_from-IsFound u best pole [] h = unfold nearest_from in inl (h, refl)
  nearest_from-IsFound u best pole (d ∷ ds) {k} h =
      let next = better u best pole d in
      let step = nearest_from-cons u best pole d ds in
      let h' : (nearest_from (u + 1) next pole ds).num ≡ some k = rw (← step) h in
      elim (nearest_from-IsFound (u + 1) next pole ds h') [
        | inr f ↦ inr (record {
          index = suc f.index;
          detection = f.detection;
          shifted = omega (arith, f.shifted);
          there = f.there;
          unused = f.unused;
          distance = ap (λ (b : Best R). b.distance) step ∙ f.distance;
        })
        | inl (e, same) ↦ elim (better-cases u best pole d) [
          | inl old ↦ inl (rw (← old) e, step ∙ same ∙ old)
          | inr (free, new) ↦ inr (record {
            index = 0;
            detection = d;
            shifted = omega (arith, some-injective _ _ (sym (ap (λ (b : Best R). b.num) new) ∙ e));
            there = refl;
            unused = free;
            distance = ap (λ (b : Best R). b.distance) (step ∙ same ∙ new);
          })
        ]
      ]

  -- What a match is.
  pub record IsMatch (c : PoleParams R) (pole : PoleInfo R) (ds : List (PoleInfo R)) (k : ℕ)
      (d : PoleInfo R) : Type 0 where
    pub there : get_elem? ds k ≡ some d
    pub unused : d.is_used ≡ false
    pub near : lt (distance_between pole d) c.pole_association_threshold ≡ true
    pub best : (nearest pole ds).distance ≡ distance_between pole d

  take_match-some :
      (num : Option ℕ) (near : Bool) (ds : List (PoleInfo R)) (k : ℕ) (d : PoleInfo R)
      → take_match num near ds ≡ some (record { num = k; pole = d })
      → (num ≡ some k) × (near ≡ true) × (get_elem? ds k ≡ some d)
  unfolding take_match
  take_match-some none near ds k d h = ground arith
  take_match-some (some u) false ds k d h = ground arith
  take_match-some (some u) true ds k d h = ground arith

  -- A pole is matched to a detection that no pole has taken yet, and that is nearer than the
  -- threshold.
  pub match_pole-IsMatch :
      (c : PoleParams R) (pole : PoleInfo R) (ds : List (PoleInfo R)) (k : ℕ) (d : PoleInfo R)
      → match_pole c pole ds ≡ some (record { num = k; pole = d })
      → IsMatch c pole ds k d
  unfolding match_pole nearest
  match_pole-IsMatch c pole ds k d h =
      let best = nearest pole ds in
      let near = lt best.distance c.pole_association_threshold in
      let (num, close, there) = take_match-some best.num near ds k d h in
      elim (nearest_from-IsFound 0 (record { distance = dec 1000 0; num = none }) pole ds num) [
        | inl (bad, _) ↦ absurd (ground (arith, bad))
        | inr f ↦
            let at_k : f.index ≡ k = omega (arith, f.shifted) in
            let one : f.detection ≡ d =
              some-injective _ _ (sym f.there ∙ ap (get_elem? ds) at_k ∙ there) in
            record {
              there = there;
              unused = ap (λ (q : PoleInfo R). q.is_used) (sym one) ∙ f.unused;
              near =
                  ap (λ (q : PoleInfo R). lt (distance_between pole q) c.pole_association_threshold)
                    (sym one)
                  ∙ ap (λ x. lt x c.pole_association_threshold) (sym f.distance)
                  ∙ close;
              best = f.distance ∙ ap (distance_between pole) one;
            }
      ]

  refresh-updated : (alpha : R) (d pole : PoleInfo R) → (refresh alpha d pole).is_updated ≡ true
  unfolding refresh
  refresh-updated alpha d pole = ground arith

  -- In the matching loop every detection is used at most once: those that were free are now either
  -- still free, and so become new poles, or have each updated one pole.
  pub associate_counts :
      (c : PoleParams R) (poles ds : List (PoleInfo R))
      → AllClear poles
      → let matched = associate c poles ds in
        count_updated matched.poles + count_new matched.detections ≡ count_new ds
  unfolding lose
  associate_counts c [] ds h = unfold associate in omega arith
  associate_counts c (pole ∷ poles) ds h = elim (Option-cases (match_pole c pole ds)) [
    | inl e ↦
        rw (associate-none c pole poles ds h.0 e)
          (ground (arith, h.0, associate_counts c poles ds h.1))
    | inr (m, e) ↦
        let used = mark_used m.num ds in
        let it = match_pole-IsMatch c pole ds m.num m.pole e in
        rw (associate-some c pole poles ds m.num m.pole h.0 e) (
          ground (
            arith,
            refresh-updated c.filter_alpha m.pole pole,
            count_new-mark_used ds m.num it.there it.unused,
            associate_counts c poles used h.1,
          ))
  ]
