-- ===== src/Task/Stuck.antt =====
-- The protection against staying in one place: check_position_stuck_protection() and
-- reset_position_stuck_detection().
use firt_version_ws.Prelude.{ℕ, ◌+◌, true, false, not, ◌&&◌, if◌then◌else◌, leb}
use firt_version_ws.Platform.{Platform, ◌⊖◌, dec, lt, le, norm}
use firt_version_ws.Task.State.{Task}

module _ {R : Type 0} ⦃p : Platform R⦄ where
  -- How far the vehicle is from where it was last seen to move.
  unfoldable pub position_change : Task R → R
  position_change t =
      let pos = t.base.local_position.position in
      norm (pos.x ⊖ t.last_position_x) (pos.y ⊖ t.last_position_y) (pos.z ⊖ t.last_position_z)

  abbrev pub at_present : ℕ → Task R → Task R
  at_present now t =
      let pos = t.base.local_position.position in
      record t {
        last_position_time = now;
        last_position_x = pos.x;
        last_position_y = pos.y;
        last_position_z = pos.z;
      }

  -- The two branches on the distance moved.
  unfoldable pub detect_stuck : ℕ → Task R → Task R
  unfolding position_change
  detect_stuck now t =
      if lt t.waypoint_threshold (position_change t)
      then record (at_present now t) { position_stuck_detected = false }
      else if not t.position_stuck_detected && le (dec 8 0) (p.seconds now t.last_position_time)
      then record t {
        position_stuck_detected = true;
        stuck_detection_time = now;
        ignore_target_until = now + 1_000_000_000;
        ignoring_targets = true;
      }
      else t

  -- What follows: the end of the ignoring interval.
  unfoldable pub stop_ignoring : ℕ → Task R → Task R
  stop_ignoring now t =
      if t.ignoring_targets && leb t.ignore_target_until now
      then record t { ignoring_targets = false }
      else t

  unfoldable pub check_position_stuck_protection : ℕ → Task R → Task R
  unfolding detect_stuck stop_ignoring
  check_position_stuck_protection now t = stop_ignoring now (detect_stuck now t)

  unfoldable pub reset_position_stuck_detection : ℕ → Task R → Task R
  reset_position_stuck_detection now t = record (at_present now t) {
    position_stuck_detected = false;
    ignoring_targets = false;
  }
