-- ===== src/Task/State.antt =====
-- The fields of class TaskController that its code reads, its base class as a field, and the two
-- static variables of tilt_land().
use firt_version_ws.Prelude.{ℕ, Bool, false, List, [], ◌∷◌}
use firt_version_ws.Platform.{Platform, dec, neg}
use firt_version_ws.Offboard.State.{Base}

-- A row {x, y, z, yaw} of waypoints_.
pub record Waypoint (R : Type 0) : Type 0 where
  pub x : R
  pub y : R
  pub z : R
  pub yaw : R

pub record Task (R : Type 0) : Type 0 where
  pub base : Base R
  pub last_position_time : ℕ
  pub last_position_x : R
  pub last_position_y : R
  pub last_position_z : R
  pub position_stuck_detected : Bool
  pub stuck_detection_time : ℕ
  pub ignore_target_until : ℕ
  pub ignoring_targets : Bool
  pub waypoints : List (Waypoint R)
  pub current_waypoint_index : ℕ
  pub takeoff_height : R
  pub waypoint_threshold : R
  pub setpoint_ready : Bool
  pub offboard_setpoint_counter : ℕ
  pub stage1_completed : Bool
  pub stage1_started : Bool

module _ {R : Type 0} ⦃p : Platform R⦄ where
  abbrev pub row : R → R → R → R → Waypoint R
  row x y z yaw = record { x = x; y = y; z = z; yaw = yaw }

  unfoldable pub waypoint_generate : R → List (Waypoint R)
  waypoint_generate takeoff_height =
      row (dec 2 0) (dec 0 0) takeoff_height (dec 0 0)
      ∷ row (dec 2 0) (neg (dec 2 0)) takeoff_height (dec 0 0)
      ∷ row (dec 0 0) (neg (dec 2 0)) takeoff_height (dec 0 0)
      ∷ []

  -- The constructor: a new base, the two parameters, the generated waypoints.
  unfoldable pub new_task : Base R → R → R → Task R
  unfolding waypoint_generate
  new_task base takeoff_height waypoint_threshold = record {
    base = base;
    last_position_time = 0;
    last_position_x = dec 0 0;
    last_position_y = dec 0 0;
    last_position_z = dec 0 0;
    position_stuck_detected = false;
    stuck_detection_time = 0;
    ignore_target_until = 0;
    ignoring_targets = false;
    waypoints = waypoint_generate takeoff_height;
    current_waypoint_index = 0;
    takeoff_height = takeoff_height;
    waypoint_threshold = waypoint_threshold;
    setpoint_ready = false;
    offboard_setpoint_counter = 0;
    stage1_completed = false;
    stage1_started = false;
  }
