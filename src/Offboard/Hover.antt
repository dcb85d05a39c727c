-- ===== src/Offboard/Hover.antt =====
-- The hover state machine of base_controller.cpp.
use firt_version_ws.Prelude.{ℕ, Bool, true, false, ◌&&◌, if◌then◌else◌, Option, none, some}
use firt_version_ws.Platform.{Platform, ◌⊕◌, ◌⊖◌, ◌⊗◌, dec, neg, lt, le, norm}
use firt_version_ws.Offboard.State.{
  Base, HoverState, idle, positioning, hovering, completed, HoverConfig, default_hover_config,
}
use firt_version_ws.Offboard.Setpoints.{publish_position_setpoint}

abbrev pub is_idle : HoverState → Bool
is_idle idle = true
is_idle _ = false

-- `if (condition && condition()) return true; return false;`
abbrev pub asks : Option (ℕ → Bool) → ℕ → Bool
asks none now = false
asks (some condition) now = condition now

module _ {R : Type 0} ⦃p : Platform R⦄ where
  unfoldable pub reset_hover_state : Base R → Base R
  unfolding default_hover_config
  reset_hover_state b = record b { hover_state = idle; hover_config = default_hover_config }

  unfoldable pub stop_hover : Base R → Base R
  unfolding reset_hover_state
  stop_hover b = if is_idle b.hover_state then b else reset_hover_state b

  -- The yaw error is brought back by at most one turn each way.
  unfoldable pub check_hover_position_reached : Base R → Bool
  check_hover_position_reached b =
      let c = b.hover_config in
      let pos = b.local_position.position in
      let position_error = norm (pos.x ⊖ c.x) (pos.y ⊖ c.y) (pos.z ⊖ c.z) in
      let d = b.current_yaw ⊖ c.yaw in
      let d = if lt p.pi d then d ⊖ dec 2 0 ⊗ p.pi else d in
      let d = if lt d (neg p.pi) then d ⊕ dec 2 0 ⊗ p.pi else d in
      lt position_error c.position_tolerance && lt (p.abs d) c.yaw_tolerance

  unfoldable pub check_hover_exit_conditions : ℕ → Base R → Bool
  check_hover_exit_conditions now b =
      let c = b.hover_config in
      if lt (dec 0 0) c.duration && le c.duration (p.seconds now b.hover_start_time)
      then true
      else asks c.exit_condition now

  -- hover_config_ = config, at the present pose if the configuration says so.
  unfoldable pub place_hover : HoverConfig R → Base R → Base R
  place_hover config b =
      if config.use_current_position
      then record b {
        hover_config = record config {
          x = b.local_position.position.x;
          y = b.local_position.position.y;
          z = b.local_position.position.z;
          yaw = b.current_yaw;
        };
      }
      else record b { hover_config = config }

  -- It returns true on every path.
  unfoldable pub start_hover : ℕ → HoverConfig R → Base R → Base R
  unfolding stop_hover place_hover
  start_hover now config b =
      let placed = place_hover config (stop_hover b) in
      if check_hover_position_reached placed
      then record placed { hover_state = hovering; hover_start_time = now }
      else record placed { hover_state = positioning }

  unfoldable pub start_hover_for : ℕ → R → Base R → Base R
  unfolding start_hover default_hover_config
  start_hover_for now duration b =
      let config = default_hover_config in
      start_hover now (record config { use_current_position = true; duration = duration }) b

  unfoldable pub start_hover_at_position : ℕ → R → R → R → R → R → Base R → Base R
  unfolding start_hover default_hover_config
  start_hover_at_position now x y z yaw duration b =
      let config = default_hover_config in
      start_hover now
        (record config {
          x = x;
          y = y;
          z = z;
          yaw = yaw;
          duration = duration;
          use_current_position = false;
        })
        b

  unfoldable pub start_hover_with_condition : ℕ → (ℕ → Bool) → Base R → Base R
  unfolding start_hover default_hover_config
  start_hover_with_condition now condition b =
      let config = default_hover_config in
      start_hover now
        (record config {
          use_current_position = true;
          duration = neg (dec 1 0);
          exit_condition = some condition;
        })
        b

  -- The switch of update_hover().
  unfoldable pub update_hover_in : HoverState → ℕ → Base R → Base R × Bool
  unfolding publish_position_setpoint reset_hover_state
  update_hover_in idle now b = (b, true)
  update_hover_in positioning now b =
      let c = b.hover_config in
      let sent = publish_position_setpoint c.x c.y c.z c.yaw b in
      (
        if check_hover_position_reached sent
            then record sent { hover_state = hovering; hover_start_time = now }
            else sent,
        false,
      )
  update_hover_in hovering now b =
      let c = b.hover_config in
      let sent = publish_position_setpoint c.x c.y c.z c.yaw b in
      if check_hover_exit_conditions now sent
      then (record sent { hover_state = completed }, true)
      else (sent, false)
  update_hover_in completed now b = (reset_hover_state b, true)

  unfoldable pub update_hover : ℕ → Base R → Base R × Bool
  unfolding update_hover_in
  update_hover now b = update_hover_in b.hover_state now b
