-- ===== src/Task/TiltLand.antt =====
-- tilt_land(): down a line of 45 degrees towards the origin.
use firt_version_ws.Prelude.{Bool, true, false, not, ◌||◌, if◌then◌else◌}
use firt_version_ws.Platform.{Platform, ◌⊕◌, ◌⊖◌, ◌⊗◌, ◌⊘◌, dec, neg, lt, min_of}
use firt_version_ws.Offboard.Setpoints.{publish_position_setpoint, publish_velocity_body}
use firt_version_ws.Task.State.{Task}

module _ {R : Type 0} ⦃p : Platform R⦄ where
  -- The target is (0, 0): sqrt(pow(x - 0, 2) + pow(y - 0, 2)).
  unfoldable pub horizontal_distance : Task R → R
  horizontal_distance t =
      let pos = t.base.local_position.position in
      p.sqrt ((pos.x ⊖ dec 0 0) ⊗ (pos.x ⊖ dec 0 0) ⊕ (pos.y ⊖ dec 0 0) ⊗ (pos.y ⊖ dec 0 0))

  -- The first stage: towards the start of the line, at the present height.
  unfoldable pub approach_line : Task R → Task R
  unfolding horizontal_distance publish_position_setpoint
  approach_line t =
      let pos = t.base.local_position.position in
      let d = horizontal_distance t in
      let far = lt (dec 1 1) d in
      let dx = if far then (dec 0 0 ⊖ pos.x) ⊘ d else dec 1 0 in
      let dy = if far then (dec 0 0 ⊖ pos.y) ⊘ d else dec 0 0 in
      record t {
        base =
            publish_position_setpoint (dec 0 0 ⊖ dx ⊗ pos.z) (dec 0 0 ⊖ dy ⊗ pos.z) pos.z (dec 0 0)
              t.base;
        stage1_started = true;
      }

  -- The horizontal speed of the second stage.
  unfoldable pub descent_speed_horizontal : Task R → R
  unfolding horizontal_distance
  descent_speed_horizontal t =
      min_of (dec 2 0 ⊗ p.abs (horizontal_distance t ⊖ t.base.local_position.position.z)) (dec 1 0)

  -- The second stage: a velocity towards the line or away from the origin, and down.
  unfoldable pub descend : Task R → Task R
  unfolding descent_speed_horizontal horizontal_distance publish_velocity_body
  descend t =
      let pos = t.base.local_position.position in
      let d = horizontal_distance t in
      let speed = descent_speed_horizontal t in
      let inward = lt (dec 0 0) (d ⊖ pos.z) in
      let dx = (if inward then dec 0 0 ⊖ pos.x else pos.x ⊖ dec 0 0) ⊘ d in
      let dy = (if inward then dec 0 0 ⊖ pos.y else pos.y ⊖ dec 0 0) ⊘ d in
      let wx = dx ⊗ speed in
      let wy = dy ⊗ speed in
      let a = neg t.base.current_yaw in
      let away = lt (dec 5 2) d in
      let vx = if away then wx ⊗ p.cos a ⊖ wy ⊗ p.sin a else dec 0 0 in
      let vy = if away then wx ⊗ p.sin a ⊕ wy ⊗ p.cos a else dec 0 0 in
      record t { base = publish_velocity_body vx vy (neg (dec 25 2)) (dec 0 0) t.base }

  -- The line is not reached: stage one has not begun, or the distance is off by more than 0.05.
  unfoldable pub off_line : Task R → Bool
  unfolding horizontal_distance
  off_line t =
      not t.stage1_started
      || lt (dec 5 2) (p.abs (horizontal_distance t ⊖ t.base.local_position.position.z))

  unfoldable pub tilt_land : Task R → Task R × Bool
  unfolding approach_line descend off_line
  tilt_land t =
      if lt t.base.local_position.position.z (dec 8 2)
      then (record t { stage1_completed = false; stage1_started = false }, true)
      else if not t.stage1_completed
      then if off_line t
        then (approach_line t, false)
        else (descend (record t { stage1_completed = true }), false)
      else (descend t, false)
