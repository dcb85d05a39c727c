-- ===== src/Pointcl/Track.antt =====
-- pointcl/src/pole_detection.cpp, the rest of analyzeClusters: detections are matched to the poles
-- on the list, lost poles are erased, and new ones get the next ids.
use firt_version_ws.Prelude.{
  ℕ, zero, suc, ◌+◌, Bool, true, false, if◌then◌else◌, Option, none, some, List, [], ◌∷◌, ◌++◌,
  get_elem?, ltb,
}
use firt_version_ws.Platform.{Platform, ◌⊕◌, ◌⊖◌, ◌⊗◌, dec, lt}
use firt_version_ws.Pointcl.Detect.{PoleInfo, PoleParams, calculate_distance}

-- best_distance_to_inlist and num; `none` is num == -1.
abbrev pub Best : Type 0 → Type 0
Best R = record { distance : R; num : Option ℕ }

module _ {R : Type 0} ⦃p : Platform R⦄ where
  unfoldable pub distance_between : PoleInfo R → PoleInfo R → R
  distance_between a b =
      let dx = p.to_float (b.x ⊖ a.x) in
      let dy = p.to_float (b.y ⊖ a.y) in p.to_float (p.sqrt (dx ⊗ dx ⊕ dy ⊗ dy))

  -- The inner loop, at the detection of index u.
  unfoldable pub nearest_from : ℕ → Best R → PoleInfo R → List (PoleInfo R) → Best R
  unfolding distance_between
  nearest_from u best pole [] = best
  nearest_from u best pole (d ∷ ds) =
      nearest_from (u + 1)
        (if d.is_used
          then best
          else if lt (distance_between pole d) best.distance
          then record { distance = distance_between pole d; num = some u }
          else best)
        pole ds

  unfoldable pub nearest : PoleInfo R → List (PoleInfo R) → Best R
  unfolding nearest_from
  nearest pole ds = nearest_from 0 (record { distance = dec 1000 0; num = none }) pole ds

  -- update(): the low-pass filter, or the first position.
  unfoldable pub update : R → R → R → PoleInfo R → PoleInfo R
  update alpha x y pole =
      if pole.is_initialized
      then record pole {
        x = p.to_float (alpha ⊗ x ⊕ (dec 1 0 ⊖ alpha) ⊗ pole.x);
        y = p.to_float (alpha ⊗ y ⊕ (dec 1 0 ⊖ alpha) ⊗ pole.y);
      }
      else record pole { x = x; y = y; is_initialized = true }

  unfoldable pub refresh : R → PoleInfo R → PoleInfo R → PoleInfo R
  unfolding update calculate_distance
  refresh alpha d pole =
      let moved =
        update alpha d.x d.y (record pole { is_updated = true; lost_count = 0; detected = true }) in
      record moved { distance = calculate_distance moved.x moved.y }

module _ {R : Type 0} where
  unfoldable pub lose : PoleInfo R → PoleInfo R
  lose pole = record pole { lost_count = pole.lost_count + 1; detected = false }

  unfoldable pub mark_used : ℕ → List (PoleInfo R) → List (PoleInfo R)
  mark_used u [] = []
  mark_used zero (d ∷ ds) = record d { is_used = true } ∷ ds
  mark_used (suc u) (d ∷ ds) = d ∷ mark_used u ds

  -- The loop that sets is_updated back.
  unfoldable pub clear_updated : List (PoleInfo R) → List (PoleInfo R)
  clear_updated [] = []
  clear_updated (pole ∷ poles) = record pole { is_updated = false } ∷ clear_updated poles

  -- The erasing loop, which keeps the order.
  unfoldable pub erase_lost : List (PoleInfo R) → List (PoleInfo R)
  erase_lost [] = []
  erase_lost (pole ∷ poles) =
      let rest = erase_lost poles in if ltb 5 pole.lost_count then rest else pole ∷ rest

  -- The unused detections, with ids from `next` on.
  unfoldable pub register : ℕ → List (PoleInfo R) → List (PoleInfo R)
  register next [] = []
  register next (d ∷ ds) =
      let rest = register (if d.is_used then next else next + 1) ds in
      if d.is_used then rest else record d { id = next; detected = true } ∷ rest

  -- How many those are: new_poles_count.
  unfoldable pub count_new : List (PoleInfo R) → ℕ
  count_new [] = 0
  count_new (d ∷ ds) = let rest = count_new ds in if d.is_used then rest else rest + 1

-- What a pole is matched to: the index and the detection.
abbrev pub Match : Type 0 → Type 0
Match R = Option (record { num : ℕ; pole : PoleInfo R })

abbrev pub Association : Type 0 → Type 0
Association R = record { poles : List (PoleInfo R); detections : List (PoleInfo R) }

module _ {R : Type 0} where
  -- detected_poles[num], if there is a num, it is near, and it is an index of the list.
  unfoldable pub pick : ℕ → Option (PoleInfo R) → Match R
  pick u none = none
  pick u (some d) = some (record { num = u; pole = d })

  unfoldable pub take_match : Option ℕ → Bool → List (PoleInfo R) → Match R
  unfolding pick
  take_match none near ds = none
  take_match (some u) false ds = none
  take_match (some u) true ds = pick u (get_elem? ds u)

module _ {R : Type 0} ⦃p : Platform R⦄ where
  -- `num >= 0 && best < threshold`
  unfoldable pub match_pole : PoleParams R → PoleInfo R → List (PoleInfo R) → Match R
  unfolding nearest take_match
  match_pole c pole ds =
      let best = nearest pole ds in
      take_match best.num (lt best.distance c.pole_association_threshold) ds

  -- The matching loop: the poles in order, each with the detections that are left.
  unfoldable pub associate : PoleParams R → List (PoleInfo R) → List (PoleInfo R) → Association R
  unfolding match_pole refresh lose mark_used
  associate c [] ds = record { poles = []; detections = ds }
  associate c (pole ∷ poles) ds =
      let left = associate c poles ds in
      if pole.is_updated
      then record { poles = pole ∷ left.poles; detections = left.detections }
      else elim (match_pole c pole ds) [
        | none ↦ record { poles = lose pole ∷ left.poles; detections = left.detections }
        | some m ↦
            let rest = associate c poles (mark_used m.num ds) in
            record {
              poles = refresh c.filter_alpha m.pole pole ∷ rest.poles;
              detections = rest.detections;
            }
      ]

-- PoleList and pole_num_count.
pub record Tracker (R : Type 0) : Type 0 where
  pub pole_list : List (PoleInfo R)
  pub pole_num_count : ℕ

module _ {R : Type 0} ⦃p : Platform R⦄ where
  -- analyzeClusters after its first loop, on the poles that this detected.
  unfoldable pub track_poles : PoleParams R → List (PoleInfo R) → Tracker R → Tracker R
  unfolding associate clear_updated erase_lost register count_new
  track_poles c detected t =
      let matched = associate c (clear_updated t.pole_list) detected in
      record {
        pole_list = erase_lost matched.poles ++ register t.pole_num_count matched.detections;
        pole_num_count = t.pole_num_count + count_new matched.detections;
      }
