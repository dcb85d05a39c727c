-- ===== src/Task/StuckLaws.antt =====
-- When the position-stuck protection begins to ignore targets, over the checks since a reset.
use firt_version_ws.Prelude.{
  ℕ, ◌+◌, true, false, ◌≡◌, refl, subst, ◌∙◌, inl, inr, Bool-cases, List, [], ◌∷◌, arith,
}
use firt_version_ws.Platform.{Platform, ◌⊖◌, dec, lt, le, norm}
use firt_version_ws.Offboard.State.{Point}
use firt_version_ws.Task.State.{Task}
use firt_version_ws.Task.Stuck.{check_position_stuck_protection, reset_position_stuck_detection}

-- What the protection is asked, at a time and a position of the vehicle.
pub data Ask (R : Type 0) : Type 0 where
  check : ℕ → Point R → Ask R
  reset : ℕ → Point R → Ask R

module _ {R : Type 0} ⦃p : Platform R⦄ where
  abbrev pub at_position : Point R → Task R → Task R
  at_position pos t =
      let b = t.base in
      record t { base = record b { local_position = record (b.local_position) { position = pos } } }

  abbrev pub answer : Ask R → Task R → Task R
  answer (check now pos) t = check_position_stuck_protection now (at_position pos t)
  answer (reset now pos) t = reset_position_stuck_detection now (at_position pos t)

  -- The node after a first reset and what is asked then, the last first.
  abbrev pub asked : Task R → ℕ → Point R → List (Ask R) → Task R
  asked t first place [] = answer (reset first place) t
  asked t first place (a ∷ earlier) = answer a (asked t first place earlier)

  abbrev pub distance_from : Point R → Point R → R
  distance_from q pos = norm (pos.x ⊖ q.x) (pos.y ⊖ q.y) (pos.z ⊖ q.z)

  -- At `time` the vehicle was at `q`, and every check since then found it within the threshold of q.
  pub data StillSince (threshold : R) (first : ℕ) (place : Point R) (time : ℕ) (q : Point R)
      : List (Ask R) → Type 0 where
    from_start : time ≡ first → q ≡ place → StillSince threshold first place time q []
    from_check :
        {earlier : List (Ask R)} → StillSince threshold first place time q (check time q ∷ earlier)
    from_reset :
        {earlier : List (Ask R)} → StillSince threshold first place time q (reset time q ∷ earlier)
    still :
        {earlier : List (Ask R)} {now : ℕ} {pos : Point R}
        → lt threshold (distance_from q pos) ≡ false
        → StillSince threshold first place time q earlier
        → StillSince threshold first place time q (check now pos ∷ earlier)

  abbrev last_place : Task R → Point R
  last_place t = record { x = t.last_position_x; y = t.last_position_y; z = t.last_position_z }

  record Remembers (threshold : R) (first : ℕ) (place : Point R) (asks : List (Ask R)) (t : Task R)
      : Type 0 where
    since : StillSince threshold first place t.last_position_time (last_place t) asks
    same : t.waypoint_threshold ≡ threshold

  -- The fields that a check leaves, when the vehicle has moved and when it has not.
  record Fields (when : ℕ) (q : Point R) (t u : Task R) : Type 0 where
    time : u.last_position_time ≡ when
    place : last_place u ≡ q
    same : u.waypoint_threshold ≡ t.waypoint_threshold

  check-moved :
      (now : ℕ) (pos : Point R) (t : Task R)
      → lt t.waypoint_threshold (distance_from (last_place t) pos) ≡ true
      → Fields now pos t (answer (check now pos) t)
  unfolding check_position_stuck_protection
  check-moved now pos t moved = record {
    time = ground (arith, moved);
    place = ground (arith, moved);
    same = ground (arith, moved);
  }

  check-near :
      (now : ℕ) (pos : Point R) (t : Task R)
      → lt t.waypoint_threshold (distance_from (last_place t) pos) ≡ false
      → Fields t.last_position_time (last_place t) t (answer (check now pos) t)
  unfolding check_position_stuck_protection
  check-near now pos t near = record {
    time = ground (arith, near);
    place = ground (arith, near);
    same = ground (arith, near);
  }

  check-Remembers :
      (threshold : R) (first : ℕ) (place : Point R) (asks : List (Ask R)) (now : ℕ) (pos : Point R)
      (t : Task R)
      → Remembers threshold first place asks t
      → Remembers threshold first place (check now pos ∷ asks) (answer (check now pos) t)
  check-Remembers threshold first place asks now pos t h =
      elim (Bool-cases (lt t.waypoint_threshold (distance_from (last_place t) pos))) [
        | inl moved ↦
            let f = check-moved now pos t moved in
            record { since = rw (f.time, f.place) from_check; same = f.same ∙ h.same }
        | inr near ↦
            let f = check-near now pos t near in
            record {
              since = rw (f.time, f.place) (still (rw (← h.same) near) h.since);
              same = f.same ∙ h.same;
            }
      ]

  asked-Remembers :
      (t : Task R) (first : ℕ) (place : Point R) (asks : List (Ask R))
      → Remembers t.waypoint_threshold first place asks (asked t first place asks)
  unfolding reset_position_stuck_detection
  asked-Remembers t first place [] = record { since = from_start refl refl; same = refl }
  asked-Remembers t first place (check now pos ∷ earlier) =
      check-Remembers t.waypoint_threshold first place earlier now pos (asked t first place earlier)
        (asked-Remembers t first place earlier)
  asked-Remembers t first place (reset now pos ∷ earlier) = record {
    since = from_reset;
    same = (asked-Remembers t first place earlier).same;
  }

  -- What makes a check begin to ignore targets.
  record Begins (now : ℕ) (pos : Point R) (t : Task R) : Type 0 where
    near : lt t.waypoint_threshold (distance_from (last_place t) pos) ≡ false
    long : le (dec 8 0) (p.seconds now t.last_position_time) ≡ true
    until : (answer (check now pos) t).ignore_target_until ≡ now + 1_000_000_000

  check-Begins :
      (now : ℕ) (pos : Point R) (t : Task R)
      → t.ignoring_targets ≡ false
      → (answer (check now pos) t).ignoring_targets ≡ true
      → Begins now pos t
  unfolding check_position_stuck_protection
  check-Begins now pos t before after = record {
    near = ground (arith, before, after);
    long = ground (arith, before, after);
    until = ground (arith, before, after);
  }

  -- After a reset, and any checks and resets since: if a check begins to ignore targets, then at some
  -- time, at least eight seconds before, the vehicle was reset or checked at a place within the
  -- threshold of which this check and every one since then found it, with no reset between; and
  -- targets are to be ignored for one second.
  pub asked-StillSince :
      (t : Task R) (first : ℕ) (place : Point R) (asks : List (Ask R)) (now : ℕ) (pos : Point R)
      → (asked t first place asks).ignoring_targets ≡ false
      → (asked t first place (check now pos ∷ asks)).ignoring_targets ≡ true
      → (time : ℕ) × (q : Point R) × StillSince t.waypoint_threshold first place time q
          (check now pos ∷ asks)
        × (le (dec 8 0) (p.seconds now time) ≡ true)
        × ((asked t first place (check now pos ∷ asks)).ignore_target_until ≡ now + 1_000_000_000)
  asked-StillSince t first place asks now pos before after =
      let b = asked t first place asks in
      let r = asked-Remembers t first place asks in
      let c = check-Begins now pos b before after in
      (
        b.last_position_time,
        last_place b,
        still (subst (λ h. lt h (distance_from (last_place b) pos) ≡ false) r.same c.near) r.since,
        c.long,
        c.until,
      )
