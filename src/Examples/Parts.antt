-- ===== src/Examples/Parts.antt =====
-- The hover, the angles, the path compression and the odometry node at concrete inputs.
use firt_version_ws.Prelude.{
  ℕ, zero, suc, ◌*◌, true, ◌≡◌, refl, List, [], ◌∷◌, arith, ℤ, pos, Embeds, not, leb_ℤ, ltb_ℤ,
}
use firt_version_ws.Platform.Millis.{millis}
use firt_version_ws.Offboard.State.{Base, new_base, default_hover_config, Pose, hovering, completed}
use firt_version_ws.Offboard.Hover.{
  start_hover_for, start_hover_at_position, start_hover, place_hover, stop_hover, reset_hover_state,
  check_hover_position_reached, update_hover,
}
use firt_version_ws.Offboard.HoverLaws.{updates, hover_point, holds}
use firt_version_ws.Offboard.HoverFor.{start_hover_for_lem}
use firt_version_ws.Task.State.{Waypoint, row}
use firt_version_ws.Task.Compress.{
  compress_waypoints, compress_from, flush, midpoint, is_key, is_uturn,
}
use firt_version_ws.Task.CompressLaws.{bend_points, compress-bend_points}
use firt_version_ws.Offboard.Pid.{Sample}
use firt_version_ws.Odom.Defs.{OdomNode, OdomEvent, radar, tick, odom_run, new_node}
use firt_version_ws.Odom.Laws.{odom_offset}

-- A hover of two seconds at the origin.
abbrev hover : Base ℤ
unfolding new_base default_hover_config start_hover_for start_hover place_hover stop_hover
    reset_hover_state check_hover_position_reached
hover = start_hover_for 1000000000 (pos 2000) (new_base (pos 1000) (pos 500) 0)

start_hover_for_lem_example :
    let nows : List ℕ = 1500000000 ∷ 2500000000 ∷ [] in
    let (c, done) = update_hover 3000000000 (updates nows hover) in
    ((updates nows hover).hover_state ≡ hovering)
    × (c.hover_state ≡ completed)
    × (done ≡ true)
    × (c.out ≡ hover_point hover ∷ holds nows (hover_point hover) [])
unfolding new_base default_hover_config start_hover_for start_hover place_hover stop_hover
    reset_hover_state check_hover_position_reached
start_hover_for_lem_example =
    start_hover_for_lem 1000000000 (pos 2000) (new_base (pos 1000) (pos 500) 0)
      (1500000000 ∷ 2500000000 ∷ []) 3000000000 refl refl (refl, (refl, tt)) refl

-- On the way to a hover one metre up.
abbrev far_hover : Base ℤ
unfolding new_base default_hover_config start_hover_at_position start_hover place_hover stop_hover
    reset_hover_state check_hover_position_reached
far_hover =
    start_hover_at_position 0 (pos 0) (pos 0) (pos 1000) (pos 0) (pos 2000)
      (new_base (pos 1000) (pos 500) 0)

-- Straight on, then a corner.
abbrev path : List (Waypoint ℤ)
path =
    row (pos 0) (pos 0) (pos 0) (pos 0)
    ∷ row (pos 1000) (pos 0) (pos 0) (pos 0)
    ∷ row (pos 2000) (pos 0) (pos 0) (pos 0)
    ∷ row (pos 2000) (pos 1000) (pos 0) (pos 0)
    ∷ []

millis_ordered : (a b : ℤ) → leb_ℤ a b ≡ not (ltb_ℤ b a)
millis_ordered a b = ground arith

compress-bend_points_example : Embeds (bend_points path) (compress_waypoints path)
compress-bend_points_example = compress-bend_points millis_ordered path

-- It drops the middle of the straight part.
compress_path :
    compress_waypoints path
    ≡ row (pos 0) (pos 0) (pos 0) (pos 0)
      ∷ row (pos 2000) (pos 0) (pos 0) (pos 0)
      ∷ row (pos 2000) (pos 1000) (pos 0) (pos 0)
      ∷ []
unfolding compress_waypoints compress_from flush midpoint is_key is_uturn
compress_path = refl

-- Straight up, and then to the side: the corner is dropped.
compress_upright :
    compress_waypoints (
      row (pos 0) (pos 0) (pos 0) (pos 0)
      ∷ row (pos 0) (pos 0) (pos 1000) (pos 0)
      ∷ row (pos 1000) (pos 0) (pos 1000) (pos 0)
      ∷ [])
    ≡ row (pos 0) (pos 0) (pos 0) (pos 0) ∷ row (pos 1000) (pos 0) (pos 1000) (pos 0) ∷ []
unfolding compress_waypoints compress_from flush midpoint is_key is_uturn
compress_upright = refl

abbrev odometry : ℕ → Pose ℤ
odometry height = record {
  position = record { x = pos 100; y = pos 200; z = pos height };
  orientation = record { qx = pos 0; qy = pos 0; qz = pos 0; qw = pos 1000 };
}

abbrev heights : ℕ → List (OdomEvent ℤ) → List (OdomEvent ℤ)
heights zero es = es
heights (suc n) es = radar (odometry (n * 10)) ∷ tick ∷ heights n es

abbrev fresh : OdomNode ℤ
unfolding new_node
fresh = new_node (odometry 0)

-- The average of 90, 80, … 0 thousandths, after an eleventh message.
odom_offset_example : (odom_run (heights 10 (radar (odometry 300) ∷ [])) fresh).offset ≡ pos 45
unfolding new_node
odom_offset_example = odom_offset (heights 10 (radar (odometry 300) ∷ [])) fresh refl (omega arith)

-- A node that has averaged.
abbrev averaged : OdomNode ℤ
unfolding new_node
averaged = record fresh { checktime = 11; offset = pos 45 }

abbrev samples : List (Sample ℤ)
samples = record { error = pos 2000; dt = pos 100 } ∷ record { error = pos 1000; dt = pos 100 } ∷ []
