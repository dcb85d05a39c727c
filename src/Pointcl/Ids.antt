-- ===== src/Pointcl/Ids.antt =====
-- The ids and the lost counts of the poles on the list.
use firt_version_ws.Prelude.{
  true, false, if_true, if_false, ◌∙◌, ◌≡◌, subst, ℕ, suc, ◌+◌, ◌≤◌, sym, none, some, List, [], ◌∷◌,
  ◌++◌, arith, inl, inr, Bool-cases, Option-cases,
}
use firt_version_ws.Platform.{Platform}
use firt_version_ws.Pointcl.Detect.{PoleInfo, PoleParams}
use firt_version_ws.Pointcl.Track.{
  Tracker, associate, match_pole, refresh, lose, mark_used, clear_updated, erase_lost, register,
  count_new, track_poles,
}

module _ {R : Type 0} where
  -- The ids rise strictly along the list, from `low` on, and all are below `high`.
  abbrev pub Rises : ℕ → List (PoleInfo R) → ℕ → Type 0
  Rises low [] high = low ≤ high
  Rises low (pole ∷ poles) high = (low ≤ pole.id) × Rises (suc pole.id) poles high

  Rises-weaken :
      (poles : List (PoleInfo R)) (low low' high high' : ℕ)
      → low' ≤ low
      → high ≤ high'
      → Rises low poles high
      → Rises low' poles high'
  Rises-weaken [] low low' high high' l k h = omega arith
  Rises-weaken (pole ∷ poles) low low' high high' l k h =
      (omega arith, Rises-weaken poles (suc pole.id) (suc pole.id) high high' (omega arith) k h.1)

  Rises-le : (poles : List (PoleInfo R)) (low high : ℕ) → Rises low poles high → low ≤ high
  Rises-le [] low high h = h
  Rises-le (pole ∷ poles) low high h = omega (arith, Rises-le poles (suc pole.id) high h.1)

  Rises-append :
      (xs ys : List (PoleInfo R)) (low mid high : ℕ)
      → Rises low xs mid
      → Rises mid ys high
      → Rises low (xs ++ ys) high
  Rises-append [] ys low mid high h k = Rises-weaken ys mid low high high h (omega arith) k
  Rises-append (x ∷ xs) ys low mid high h k = (h.0, Rises-append xs ys (suc x.id) mid high h.1 k)

  Rises-clear_updated :
      (poles : List (PoleInfo R)) (low high : ℕ)
      → Rises low poles high
      → Rises low (clear_updated poles) high
  unfolding clear_updated
  Rises-clear_updated [] low high h = h
  Rises-clear_updated (pole ∷ poles) low high h =
      (h.0, Rises-clear_updated poles (suc pole.id) high h.1)

  Rises-erase_lost :
      (poles : List (PoleInfo R)) (low high : ℕ)
      → Rises low poles high
      → Rises low (erase_lost poles) high
  unfolding erase_lost
  Rises-erase_lost [] low high h = h
  Rises-erase_lost (pole ∷ poles) low high h =
      let rest = Rises-erase_lost poles (suc pole.id) high h.1 in
      ground (arith, Rises-weaken (erase_lost poles) (suc pole.id) low high high)

  Rises-register :
      (ds : List (PoleInfo R)) (next : ℕ) → Rises next (register next ds) (next + count_new ds)
  unfolding register count_new
  Rises-register [] next = omega arith
  Rises-register (d ∷ ds) next = elim (Bool-cases d.is_used) [
    | inl used ↦ ground (arith, used, Rises-register ds next)
    | inr unused ↦
        let later =
          Rises-weaken (register (next + 1) ds) (next + 1) (suc next) (next + 1 + count_new ds)
            (next + (count_new ds + 1)) (omega arith) (omega arith)
            (Rises-register ds (next + 1)) in
        ground (arith, unused, later)
  ]

module _ {R : Type 0} ⦃p : Platform R⦄ where
  refresh-id : (alpha : R) (d pole : PoleInfo R) → (refresh alpha d pole).id ≡ pole.id
  unfolding refresh
  refresh-id alpha d pole = ground arith

  pub associate-updated :
      (c : PoleParams R) (pole : PoleInfo R) (poles ds : List (PoleInfo R))
      → pole.is_updated ≡ true
      → associate c (pole ∷ poles) ds ≡ record {
        poles = pole ∷ (associate c poles ds).poles;
        detections = (associate c poles ds).detections;
      }
  unfolding associate
  associate-updated c pole poles ds done = if_true _ _ done

  pub associate-none :
      (c : PoleParams R) (pole : PoleInfo R) (poles ds : List (PoleInfo R))
      → pole.is_updated ≡ false
      → match_pole c pole ds ≡ none
      → associate c (pole ∷ poles) ds ≡ record {
        poles = lose pole ∷ (associate c poles ds).poles;
        detections = (associate c poles ds).detections;
      }
  unfolding associate
  associate-none c pole poles ds free e = if_false _ _ free ∙ (rw e)

  pub associate-some :
      (c : PoleParams R) (pole : PoleInfo R) (poles ds : List (PoleInfo R)) (num : ℕ)
      (d : PoleInfo R)
      → pole.is_updated ≡ false
      → match_pole c pole ds ≡ some (record { num = num; pole = d })
      → associate c (pole ∷ poles) ds ≡ record {
        poles = refresh c.filter_alpha d pole ∷ (associate c poles (mark_used num ds)).poles;
        detections = (associate c poles (mark_used num ds)).detections;
      }
  unfolding associate
  associate-some c pole poles ds num d free e = if_false _ _ free ∙ (rw e)

  Rises-associate :
      (c : PoleParams R) (poles ds : List (PoleInfo R)) (low high : ℕ)
      → Rises low poles high
      → Rises low (associate c poles ds).poles high
  unfolding lose
  Rises-associate c [] ds low high h = unfold associate in h
  Rises-associate c (pole ∷ poles) ds low high h = elim (Bool-cases pole.is_updated) [
    | inl done ↦
        rw (associate-updated c pole poles ds done)
          (h.0, Rises-associate c poles ds (suc pole.id) high h.1)
    | inr free ↦ elim (Option-cases (match_pole c pole ds)) [
      | inl e ↦
          rw (associate-none c pole poles ds free e)
            (h.0, Rises-associate c poles ds (suc pole.id) high h.1)
      | inr (m, e) ↦
          let id = refresh-id c.filter_alpha m.pole pole in
          let used = mark_used m.num ds in
          let rest = Rises-associate c poles used (suc pole.id) high h.1 in
          rw (associate-some c pole poles ds m.num m.pole free e) (
            subst (λ k. (low ≤ k) × Rises (suc k) (associate c poles used).poles high) (sym id)
              (h.0, rest))
    ]
  ]

  -- The tracker gives every pole an id of its own: if the ids on the list rise strictly and stay below
  -- the counter, so they do after a round, whatever was detected.
  pub track_poles-Rises :
      (c : PoleParams R) (detected : List (PoleInfo R)) (t : Tracker R)
      → Rises 0 t.pole_list t.pole_num_count
      → let u = track_poles c detected t in Rises 0 u.pole_list u.pole_num_count
  unfolding track_poles
  track_poles-Rises c detected t h =
      let cleared = clear_updated t.pole_list in
      let matched = associate c cleared detected in
      Rises-append (erase_lost matched.poles) (register t.pole_num_count matched.detections) 0
        t.pole_num_count (t.pole_num_count + count_new matched.detections)
        (Rises-erase_lost matched.poles 0 t.pole_num_count (
          Rises-associate c cleared detected 0 t.pole_num_count
            (Rises-clear_updated t.pole_list 0 t.pole_num_count h)))
        (Rises-register matched.detections t.pole_num_count)
