-- ===== src/Pointcl/Lost.antt =====
-- A pole that is published has been missed at most five times in a row.
use firt_version_ws.Prelude.{
  ℕ, zero, suc, ◌+◌, ◌≤◌, false, ◌≡◌, some, List, [], ◌∷◌, ◌++◌, arith, inl, inr, Option-cases,
  Bool-cases,
}
use firt_version_ws.Platform.{Platform}
use firt_version_ws.Offboard.State.{Point}
use firt_version_ws.Pointcl.Pcl.{Pcl}
use firt_version_ws.Pointcl.Detect.{
  PoleInfo, PoleParams, detect_poles, analyze_pole_candidate, cluster_cloud,
}
use firt_version_ws.Pointcl.Track.{
  Tracker, associate, match_pole, mark_used, clear_updated, erase_lost, register, track_poles,
}
use firt_version_ws.Pointcl.Node.{analyze_clusters}
use firt_version_ws.Pointcl.Ids.{associate-none, associate-some, associate-updated}

module _ {R : Type 0} where
  abbrev pub KeptOn : List (PoleInfo R) → Type 0
  KeptOn [] = Unit {0}
  KeptOn (q ∷ qs) = (q.lost_count ≤ 5) × KeptOn qs

  erase_lost-le : (poles : List (PoleInfo R)) → KeptOn (erase_lost poles)
  unfolding erase_lost
  erase_lost-le [] = tt
  erase_lost-le (pole ∷ poles) = ground (arith, erase_lost-le poles)

  KeptOn-append : (xs ys : List (PoleInfo R)) → KeptOn xs → KeptOn ys → KeptOn (xs ++ ys)
  KeptOn-append [] ys h k = k
  KeptOn-append (x ∷ xs) ys h k = (h.0, KeptOn-append xs ys h.1 k)

  KeptOn-mark_used : (u : ℕ) (ds : List (PoleInfo R)) → KeptOn ds → KeptOn (mark_used u ds)
  unfolding mark_used
  KeptOn-mark_used u [] h = h
  KeptOn-mark_used zero (d ∷ ds) h = h
  KeptOn-mark_used (suc u) (d ∷ ds) h = (h.0, KeptOn-mark_used u ds h.1)

  KeptOn-register : (ds : List (PoleInfo R)) (next : ℕ) → KeptOn ds → KeptOn (register next ds)
  unfolding register
  KeptOn-register [] next h = h
  KeptOn-register (d ∷ ds) next h =
      ground (arith, KeptOn-register ds next, KeptOn-register ds (next + 1))

module _ {R : Type 0} ⦃p : Platform R⦄ ⦃l : Pcl R⦄ where
  candidate-lost :
      (c : PoleParams R) (cloud : List (Point R)) {pole : PoleInfo R}
      → analyze_pole_candidate c cloud ≡ some pole
      → (pole.lost_count ≡ 0) × (pole.is_used ≡ false)
  unfolding analyze_pole_candidate
  candidate-lost c [] h = ground arith
  candidate-lost c (q ∷ qs) h = ground arith

  detect_poles-lost :
      (c : PoleParams R) (cloud : List (Point R)) (clusters : List (List ℕ))
      → KeptOn (detect_poles c cloud clusters)
  unfolding detect_poles
  detect_poles-lost c cloud [] = tt
  detect_poles-lost c cloud (is ∷ clusters) =
      elim (Option-cases (analyze_pole_candidate c (cluster_cloud cloud is))) [
        | inl e ↦ rw (e, detect_poles) (detect_poles-lost c cloud clusters)
        | inr (pole, e) ↦
            let fresh = candidate-lost c (cluster_cloud cloud is) e in
            rw (e, detect_poles) (ground (arith, fresh, detect_poles-lost c cloud clusters))
      ]

module _ {R : Type 0} ⦃p : Platform R⦄ where
  KeptOn-associate :
      (c : PoleParams R) (poles ds : List (PoleInfo R))
      → KeptOn ds
      → KeptOn (associate c poles ds).detections
  KeptOn-associate c [] ds h = unfold associate in h
  KeptOn-associate c (pole ∷ poles) ds h = elim (Bool-cases pole.is_updated) [
    | inl done ↦ rw (associate-updated c pole poles ds done) (KeptOn-associate c poles ds h)
    | inr free ↦ elim (Option-cases (match_pole c pole ds)) [
      | inl e ↦ rw (associate-none c pole poles ds free e) (KeptOn-associate c poles ds h)
      | inr (m, e) ↦
          rw (associate-some c pole poles ds m.num m.pole free e)
            (KeptOn-associate c poles (mark_used m.num ds) (KeptOn-mark_used m.num ds h))
    ]
  ]

module _ {R : Type 0} ⦃p : Platform R⦄ ⦃l : Pcl R⦄ where
  -- After analyzeClusters no pole on the list has been missed more than five times in a row, whatever
  -- the list was before.
  pub analyze_clusters-KeptOn :
      (c : PoleParams R) (cloud : List (Point R)) (clusters : List (List ℕ)) (t : Tracker R)
      → KeptOn (analyze_clusters c cloud clusters t).pole_list
  unfolding analyze_clusters track_poles
  analyze_clusters-KeptOn c cloud clusters t =
      let detected = detect_poles c cloud clusters in
      let matched = associate c (clear_updated t.pole_list) detected in
      KeptOn-append (erase_lost matched.poles) (register t.pole_num_count matched.detections)
        (erase_lost-le matched.poles)
        (KeptOn-register matched.detections t.pole_num_count (
          KeptOn-associate c (clear_updated t.pole_list) detected
            (detect_poles-lost c cloud clusters)))
