-- ===== src/Livox/Messages.antt =====
-- lddc.cpp: the ROS messages that the driver makes of a packet and of an IMU reading. A stamp is its
-- nanoseconds, and the frame names are left out.
pub mod Laws
use firt_version_ws.Prelude.{
  String, ℕ, ◌+◌, ◌-◌, ◌*◌, ◌%◌, ◌^◌, Bool, true, false, if◌then◌else◌, Option, none, some, List,
  [], ◌∷◌, ◌==◌, ◌>>=◌, map, read_first,
}
use firt_version_ws.Livox.Data.{PointXyzlt, StoragePacket, livox_lidar_type, no_points}
use firt_version_ws.Livox.Lds.{ImuData, LidarDevice}

-- livox_ros_driver2/CustomPoint: the reflectivity is a uint8.
pub record CustomPoint (R : Type 0) : Type 0 where
  pub offset_time : ℕ
  pub x : R
  pub y : R
  pub z : R
  pub reflectivity : ℕ
  pub tag : ℕ
  pub line : ℕ

-- livox_ros_driver2/CustomMsg
pub record CustomMsg (R : Type 0) : Type 0 where
  pub stamp : ℕ
  pub timebase : ℕ
  pub point_num : ℕ
  pub lidar_id : ℕ
  pub points : List (CustomPoint R)

-- LivoxPointXyzrtlt, which takes 26 bytes.
pub record LivoxPointXyzrtlt (R : Type 0) : Type 0 where
  pub x : R
  pub y : R
  pub z : R
  pub reflectivity : R
  pub tag : ℕ
  pub line : ℕ
  pub timestamp : R

-- sensor_msgs/PointField
pub data FieldType : Type 0 where
  uint8 float32 float64 : FieldType

pub record PointField : Type 0 where
  pub name : String
  pub offset : ℕ
  pub datatype : FieldType
  pub count : ℕ

-- sensor_msgs/PointCloud2, with the points that its bytes are.
pub record PointCloud2 (R : Type 0) : Type 0 where
  pub stamp : ℕ
  pub height : ℕ
  pub width : ℕ
  pub point_step : ℕ
  pub row_step : ℕ
  pub data_size : ℕ
  pub is_bigendian : Bool
  pub is_dense : Bool
  pub fields : List PointField
  pub points : List (LivoxPointXyzrtlt R)

-- sensor_msgs/Imu
pub record ImuMsg (R : Type 0) : Type 0 where
  pub stamp : ℕ
  pub angular_velocity : R × R × R
  pub linear_acceleration : R × R × R

pub data Message (R : Type 0) : Type 0 where
  custom : CustomMsg R → Message R
  cloud : PointCloud2 R → Message R
  imu : ImuMsg R → Message R

abbrev field_at : String → ℕ → FieldType → PointField
field_at name offset datatype = record {
  name = name;
  offset = offset;
  datatype = datatype;
  count = 1;
}

-- The fields of InitPointcloud2MsgHeader.
abbrev pub cloud_fields : List PointField
cloud_fields =
    field_at "x" 0 float32
    ∷ field_at "y" 4 float32
    ∷ field_at "z" 8 float32
    ∷ field_at "intensity" 12 float32
    ∷ field_at "tag" 16 uint8
    ∷ field_at "line" 17 uint8
    ∷ field_at "timestamp" 18 float64
    ∷ []

-- `to_uint8` converts a float, `to_double` a uint64_t.
module _ {R : Type 0} (to_uint8 : R → ℕ) (to_double : ℕ → R) where
  -- The offset is a difference of uint64_t, cut to uint32_t.
  unfoldable pub custom_point : ℕ → PointXyzlt R → CustomPoint R
  custom_point base_time q = record {
    offset_time = (q.offset_time + 2 ^ 64 - base_time) % 2 ^ 64 % 2 ^ 32;
    x = q.x;
    y = q.y;
    z = q.z;
    reflectivity = to_uint8 q.intensity;
    tag = q.tag;
    line = q.line;
  }

  -- InitCustomMsg; `lidar` is the device at the index.
  unfoldable pub init_custom_msg : StoragePacket R → LidarDevice R → CustomMsg R
  init_custom_msg pkg lidar =
      let timestamp = if no_points pkg.points then 0 else pkg.base_time in
      record {
        stamp = timestamp;
        timebase = timestamp;
        point_num = pkg.points_num;
        lidar_id = if lidar.lidar_type == livox_lidar_type then lidar.handle % 2 ^ 8 else 0;
        points = [];
      }

  -- `none`: a read past the end of the packet's points.
  unfoldable pub fill_points_to_custom_msg : CustomMsg R → StoragePacket R → Option (CustomMsg R)
  unfolding custom_point
  fill_points_to_custom_msg livox_msg pkg = do
    points ← read_first pkg.points_num pkg.points
    some (record livox_msg { points = map (custom_point pkg.base_time) points })

  -- What PublishCustomPointcloud sends for a packet that it has popped.
  unfoldable pub custom_of : LidarDevice R → StoragePacket R → Option (List (Message R))
  unfolding init_custom_msg fill_points_to_custom_msg
  custom_of lidar pkg = if no_points pkg.points then some [] else do
    livox_msg ← fill_points_to_custom_msg (init_custom_msg pkg lidar) pkg
    some (custom livox_msg ∷ [])

  unfoldable pub cloud_point : PointXyzlt R → LivoxPointXyzrtlt R
  cloud_point q = record {
    x = q.x;
    y = q.y;
    z = q.z;
    reflectivity = q.intensity;
    tag = q.tag;
    line = q.line;
    timestamp = to_double q.offset_time;
  }

  -- InitPointcloud2Msg with InitPointcloud2MsgHeader.
  unfoldable pub init_pointcloud2_msg : StoragePacket R → Option (PointCloud2 R)
  unfolding cloud_point
  init_pointcloud2_msg pkg = do
    points ← read_first pkg.points_num pkg.points
    some (record {
      stamp = if no_points pkg.points then 0 else pkg.base_time;
      height = 1;
      width = pkg.points_num;
      point_step = 26;
      row_step = pkg.points_num * 26 % 2 ^ 32;
      data_size = pkg.points_num * 26;
      is_bigendian = false;
      is_dense = true;
      fields = cloud_fields;
      points = map cloud_point points;
    })

  -- What PublishPointcloud2 sends for a packet that it has popped.
  unfoldable pub cloud_of : StoragePacket R → Option (List (Message R))
  unfolding init_pointcloud2_msg
  cloud_of pkg =
      if no_points pkg.points
      then some []
      else do message ← init_pointcloud2_msg pkg; some (cloud message ∷ [])

module _ {R : Type 0} where
  unfoldable pub init_imu_msg : ImuData R → ImuMsg R
  init_imu_msg d = record {
    stamp = d.time_stamp;
    angular_velocity = (d.gyro_x, d.gyro_y, d.gyro_z);
    linear_acceleration = (d.acc_x, d.acc_y, d.acc_z);
  }
