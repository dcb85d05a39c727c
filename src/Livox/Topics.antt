-- ===== src/Livox/Topics.antt =====
-- lddc.cpp, as built for ROS 2: the topics and their publishers, GetCurrentPublisher and
-- GetCurrentImuPublisher, with ReplacePeriodByUnderline of comm/comm.cpp. A text is the list of its
-- characters' codes.
pub mod Laws
pub mod Names
use Prim.Native.Char.{code}
use Prim.Native.String.{String}
use firt_version_ws.Prelude.{
  ℕ, zero, suc, ◌+◌, ◌*◌, Bool, true, false, not, ◌&&◌, if◌then◌else◌, Option, none, some, List, [],
  ◌∷◌, ◌++◌, ◌==◌, ltb, ◌>>=◌, get_elem?, set, length, replicate,
}
use firt_version_ws.Livox.Lds.{LidarDevice, Lds}
use firt_version_ws.Livox.Lddc.{point_cloud_2_msg, livox_custom_msg}

abbrev pub codes : String → List ℕ
codes String.[] = []
codes (String.◌∷◌ c s) = code c ∷ codes s

-- '.' and '_'
abbrev pub period : ℕ
period = 46

abbrev pub underline : ℕ
underline = 95

-- IsFilePathValid: strlen as an `int`, between kPathStrMinSize and kPathStrMaxSize.
unfoldable pub is_file_path_valid : List ℕ → Bool
is_file_path_valid path = ltb 4 (length path) && ltb (length path) 256

-- str.find(".")
unfoldable pub find_period : List ℕ → Option ℕ
find_period [] = none
find_period (c ∷ str) =
    let later = find_period str in if c == period then some 0 else do i ← later; some (i + 1)

-- The loop of ReplacePeriodByUnderline. `none`: it needs more fuel.
unfoldable pub replace_loop : ℕ → List ℕ → Option (List ℕ)
unfolding find_period
replace_loop zero str = none
replace_loop (suc fuel) str = elim (find_period str) [
  | none ↦ some str
  | some i ↦ replace_loop fuel (set str i underline)
]

unfoldable pub replace_period_by_underline : List ℕ → Option (List ℕ)
unfolding replace_loop
replace_period_by_underline str = replace_loop (length str + 1) str

-- What snprintf leaves in an array of 48 characters.
unfoldable pub cut : ℕ → List ℕ → List ℕ
cut zero str = []
cut (suc n) [] = []
cut (suc n) (c ∷ str) = c ∷ cut n str

abbrev pub imu_msg : ℕ
imu_msg = 3

-- A publisher, as create_publisher is asked for it.
pub record Publisher : Type 0 where
  pub msg_type : ℕ
  pub topic_name : List ℕ
  pub queue_size : ℕ

-- The publishers of Lddc, and those that the node has been asked for, the last first.
pub record Publishers : Type 0 where
  pub private_pub : List (Option Publisher)
  pub global_pub : Option Publisher
  pub private_imu_pub : List (Option Publisher)
  pub global_imu_pub : Option Publisher
  pub created : List Publisher

unfoldable pub no_publishers : Publishers
no_publishers = record {
  private_pub = replicate 32 none;
  global_pub = none;
  private_imu_pub = replicate 32 none;
  global_imu_pub = none;
  created = [];
}

-- `none`: null_publisher.
unfoldable pub create_publisher : ℕ → List ℕ → ℕ → Option Publisher
create_publisher msg_type topic_name queue_size =
    let made : Publisher = record {
      msg_type = msg_type;
      topic_name = topic_name;
      queue_size = queue_size;
    } in
    if msg_type == point_cloud_2_msg
    then some made
    else if msg_type == livox_custom_msg
    then some made
    else if msg_type == imu_msg
    then some made
    else none

abbrev pub add_created : Option Publisher → List Publisher → List Publisher
add_created none created = created
add_created (some made) created = made ∷ created

-- `if (!slot) slot = CreatePublisher(…)`: the slot, and the publishers that were created.
unfoldable pub fill_slot :
    ℕ → List ℕ → ℕ → Option Publisher → List Publisher → Option Publisher × List Publisher
unfolding create_publisher
fill_slot msg_type topic_name queue_size (some made) created = (some made, created)
fill_slot msg_type topic_name queue_size none created =
    let slot = create_publisher msg_type topic_name queue_size in (slot, add_created slot created)

-- "livox/lidar_" or "livox/imu_" and the lidar's address. `ip_num_to_string` is inet_ntoa.
unfoldable pub topic_name_of : (ℕ → List ℕ) → List ℕ → ℕ → Option (List ℕ)
unfolding replace_period_by_underline cut
topic_name_of ip_num_to_string prefix handle = do
  replaced ← replace_period_by_underline (ip_num_to_string handle)
  some (cut 47 (prefix ++ replaced))

module _ {R : Type 0} (ip_num_to_string : ℕ → List ℕ) where
  -- One of the private publishers, whose slot holds `slot`. `none`: an index past the devices.
  unfoldable pub private_from :
      ℕ
      → List ℕ
      → ℕ
      → Lds R
      → List (Option Publisher)
      → List Publisher
      → Option Publisher
      → Option (Option Publisher × List (Option Publisher) × List Publisher)
  unfolding topic_name_of create_publisher
  private_from msg_type prefix index s slots created (some made) = some (some made, slots, created)
  private_from msg_type prefix index s slots created none = do
    device ← get_elem? s.lidars index
    topic_name ← topic_name_of ip_num_to_string prefix device.handle
    let filled = create_publisher msg_type topic_name (32 * 2)
    some (filled, set slots index filled, add_created filled created)

  unfoldable pub private_publisher :
      ℕ
      → List ℕ
      → ℕ
      → Lds R
      → List (Option Publisher)
      → List Publisher
      → Option (Option Publisher × List (Option Publisher) × List Publisher)
  unfolding private_from
  private_publisher msg_type prefix index s slots created = do
    slot ← get_elem? slots index
    private_from msg_type prefix index s slots created slot

  -- The publisher, where the inner `none` is nullptr, and the state.
  unfoldable pub get_current_publisher :
      Bool → ℕ → ℕ → Lds R → Publishers → Option (Option Publisher × Publishers)
  unfolding private_publisher fill_slot
  get_current_publisher use_multi_topic transfer_format index s t =
      if use_multi_topic
      then (do
        r ← private_publisher transfer_format (codes "livox/lidar_") index s t.private_pub t.created
        some (r.0, record t { private_pub = r.1; created = r.2 }))
      else (let filled =
            fill_slot transfer_format (codes "livox/lidar") (32 * 8) t.global_pub t.created in
          some (filled.0, record t { global_pub = filled.0; created = filled.1 }))

  unfoldable pub get_current_imu_publisher :
      Bool → ℕ → Lds R → Publishers → Option (Option Publisher × Publishers)
  unfolding private_publisher fill_slot
  get_current_imu_publisher use_multi_topic index s t =
      if use_multi_topic
      then (do
        r ← private_publisher imu_msg (codes "livox/imu_") index s t.private_imu_pub t.created
        some (r.0, record t { private_imu_pub = r.1; created = r.2 }))
      else (let filled =
            fill_slot imu_msg (codes "livox/imu") (32 * 8) t.global_imu_pub t.created in
          some (filled.0, record t { global_imu_pub = filled.0; created = filled.1 }))

-- The calls of the publishing functions for a device.
pub data Request : Type 0 where
  points imu : ℕ → Request

module _ {R : Type 0} (ip_num_to_string : ℕ → List ℕ) (use_multi_topic : Bool) (transfer_format : ℕ)
    (s : Lds R) where
  unfoldable pub request : Request → Publishers → Option (Option Publisher × Publishers)
  unfolding get_current_publisher get_current_imu_publisher
  request (points index) t =
      get_current_publisher ip_num_to_string use_multi_topic transfer_format index s t
  request (imu index) t = get_current_imu_publisher ip_num_to_string use_multi_topic index s t

  unfoldable pub request_all : List Request → Publishers → Option Publishers
  unfolding request
  request_all [] t = some t
  request_all (r ∷ requests) t = do answered ← request r t; request_all requests answered.1
