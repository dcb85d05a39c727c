-- ===== src/Offboard/Setpoints.antt =====
-- The part of base_controller.cpp that computes setpoints and publishes them.
use firt_version_ws.Prelude.{ℕ, zero, suc, if◌then◌else◌, Option, none, some, ◌>>=◌, ℤ}
use firt_version_ws.Platform.{Platform, ◌⊕◌, ◌⊖◌, ◌⊗◌, ◌⊘◌, dec, neg, lt, clamp, norm}
use firt_version_ws.Offboard.State.{Base, Point, position_setpoint, velocity_setpoint, send, of_int}

module _ {R : Type 0} ⦃p : Platform R⦄ where
  unfoldable pub publish_position_setpoint : R → R → R → R → Base R → Base R
  publish_position_setpoint x y z yaw b =
      send (position_setpoint x y z (p.set_rpy (dec 0 0) (dec 0 0) yaw)) b

  unfoldable pub publish_velocity_body : R → R → R → R → Base R → Base R
  publish_velocity_body v_x v_y v_z v_yaw b =
      send
        (velocity_setpoint v_x v_y v_z
          (clamp v_yaw (neg b.max_angular_velocity) b.max_angular_velocity))
        b

  unfoldable pub rotation : ℤ → Base R → Base R
  unfolding publish_velocity_body
  rotation reverse b =
      publish_velocity_body (dec 0 0) (dec 0 0) (dec 0 0) (dec 5 1 ⊗ of_int reverse) b

  unfoldable pub distance_to_target : R → R → R → Base R → R
  distance_to_target x y z b =
      norm (b.local_position.position.x ⊖ x) (b.local_position.position.y ⊖ y)
        (b.local_position.position.z ⊖ z)

  -- while (d > M_PI) d -= 2 * M_PI; `none` when the rounds run out.
  unfoldable pub wrap_down : ℕ → R → Option R
  wrap_down zero d = none
  wrap_down (suc f) d =
      let rest = wrap_down f (d ⊖ dec 2 0 ⊗ p.pi) in if lt p.pi d then rest else some d

  -- while (d < -M_PI) d += 2 * M_PI;
  unfoldable pub wrap_up : ℕ → R → Option R
  wrap_up zero d = none
  wrap_up (suc f) d =
      let rest = wrap_up f (d ⊕ dec 2 0 ⊗ p.pi) in if lt d (neg p.pi) then rest else some d

  unfoldable pub wrap_angle : ℕ → R → Option R
  wrap_angle fuel d = do d' ← wrap_down fuel d; wrap_up fuel d'

  unfoldable pub shortest_angular_distance : ℕ → R → R → Option R
  unfolding wrap_angle
  shortest_angular_distance fuel from to = wrap_angle fuel (to ⊖ from)

-- struct TrajectorySegment
pub record TrajectorySegment (R : Type 0) : Type 0 where
  pub start : Point R
  pub end : Point R
  pub length : R
  pub direction : Point R

-- What one control step of the trajectory follower computes.
pub record Track (R : Type 0) : Type 0 where
  pub closest : Point R
  pub cross_track : Point R
  pub along_track_error : R

module _ {R : Type 0} ⦃p : Platform R⦄ where
  -- The segment from `a` to `b`, with its length and unit direction.
  unfoldable pub segment : Point R → Point R → TrajectorySegment R
  segment a b =
      let dx = b.x ⊖ a.x in
      let dy = b.y ⊖ a.y in
      let dz = b.z ⊖ a.z in
      let len = norm dx dy dz in
      record {
        start = a;
        end = b;
        length = len;
        direction = record { x = dx ⊘ len; y = dy ⊘ len; z = dz ⊘ len };
      }

  -- The nearest point of the segment, the offset from it, and the way left along it.
  unfoldable pub track : TrajectorySegment R → Point R → Track R
  track s pos =
      let d = s.direction in
      let a = s.start in
      let along =
        clamp ((pos.x ⊖ a.x) ⊗ d.x ⊕ (pos.y ⊖ a.y) ⊗ d.y ⊕ (pos.z ⊖ a.z) ⊗ d.z) (dec 0 0)
          s.length in
      let cx = a.x ⊕ along ⊗ d.x in
      let cy = a.y ⊕ along ⊗ d.y in
      let cz = a.z ⊕ along ⊗ d.z in
      record {
        closest = record { x = cx; y = cy; z = cz };
        cross_track = record { x = pos.x ⊖ cx; y = pos.y ⊖ cy; z = pos.z ⊖ cz };
        along_track_error = s.length ⊖ along;
      }

  -- A vector of the map frame in the body frame.
  unfoldable pub body_x : R → R → R → R
  body_x yaw x y = p.cos yaw ⊗ x ⊕ p.sin yaw ⊗ y

  unfoldable pub body_y : R → R → R → R
  body_y yaw x y = neg (p.sin yaw) ⊗ x ⊕ p.cos yaw ⊗ y

  -- The branch of publish_position_setpoint_trajectory that follows the line.
  unfoldable pub follow : ℕ → ℕ → TrajectorySegment R → R → Base R → Option (Base R)
  unfolding track body_x body_y wrap_angle publish_velocity_body
  follow fuel now s target_yaw b =
      let t = track s b.local_position.position in
      let yaw = b.current_yaw in
      let cross_x = body_x yaw t.cross_track.x t.cross_track.y in
      let cross_y = body_y yaw t.cross_track.x t.cross_track.y in
      let along_x =
        body_x yaw (s.direction.x ⊗ t.along_track_error) (s.direction.y ⊗ t.along_track_error) in
      let along_y =
        body_y yaw (s.direction.x ⊗ t.along_track_error) (s.direction.y ⊗ t.along_track_error) in
      let elapsed = p.seconds now b.last_cross_time in
      let dt = if lt elapsed (dec 1 3) then dec 1 3 else elapsed in
      let d_err_x = (cross_x ⊖ b.last_cross_err_x) ⊘ dt in
      let d_err_y = (cross_y ⊖ b.last_cross_err_y) ⊘ dt in
      let cached = record b {
        last_cross_err_x = cross_x;
        last_cross_err_y = cross_y;
        last_cross_time = now;
      } in
      let vx = neg (dec 2 0 ⊗ cross_x ⊕ dec 8 1 ⊗ d_err_x) ⊕ dec 1 0 ⊗ along_x in
      let vy = neg (dec 2 0 ⊗ cross_y ⊕ dec 8 1 ⊗ d_err_y) ⊕ dec 1 0 ⊗ along_y in
      let vz = neg (dec 1 0) ⊗ t.cross_track.z in
      do
        dyaw ← wrap_angle fuel (target_yaw ⊖ yaw)
        some (publish_velocity_body vx vy vz (b.kp_yaw ⊗ dyaw) cached)

  -- `none` when the angle loops do not end within the fuel.
  unfoldable pub publish_position_setpoint_trajectory :
      ℕ → ℕ → Point R → Point R → R → Base R → Option (Base R)
  unfolding segment publish_position_setpoint
  publish_position_setpoint_trajectory fuel now start end target_yaw b =
      let s = segment start end in
      if lt s.length (dec 1 6)
      then some (publish_position_setpoint end.x end.y end.z target_yaw b)
      else follow fuel now s target_yaw b
