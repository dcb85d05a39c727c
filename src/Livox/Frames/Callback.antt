-- ===== src/Livox/Frames/Callback.antt =====
-- PubHandler::OnLivoxLidarPointCloudCallback: what the SDK delivers becomes an IMU reading or a raw
-- packet for RawDataProcess.
use firt_version_ws.Prelude.{
  ℕ, ◌*◌, ◌/◌, false, not, ◌||◌, if◌then◌else◌, Option, none, some, ◌==◌, ◌>>=◌,
}
use firt_version_ws.Livox.Data.{livox_lidar_type}
use firt_version_ws.Livox.Lds.{ImuData}
use firt_version_ws.Livox.Frames.{RawData, RawPacket}
use firt_version_ws.Livox.Frames.Timer.{PubHandler}

-- LivoxLidarDeviceType, as far as the driver tells the types apart.
pub data DeviceType : Type 0 where
  industrial_hap mid360 mid360s other : DeviceType

pub record RawImuPoint (R : Type 0) : Type 0 where
  pub gyro_x : R
  pub gyro_y : R
  pub gyro_z : R
  pub acc_x : R
  pub acc_y : R
  pub acc_z : R

-- data_type with the data that it says.
pub data Payload (R : Type 0) : Type 0 where
  imu_data : RawImuPoint R → Payload R
  point_data : RawData R → Payload R

-- LivoxLidarEthernetPacket, the fields that are read.
pub record EthernetPacket (R : Type 0) : Type 0 where
  pub time_type : ℕ
  pub timestamp : ℕ
  pub dot_num : ℕ
  pub time_interval : ℕ
  pub payload : Payload R

-- What the callback hands on.
pub data Received (R : Type 0) : Type 0 where
  imu_reading : ImuData R → Received R
  raw_packet : RawPacket R → Received R

-- The time stamp types.
abbrev pub timestamp_type_no_sync : ℕ
timestamp_type_no_sync = 0

abbrev pub timestamp_type_gptp_or_ptp : ℕ
timestamp_type_gptp_or_ptp = 1

abbrev pub timestamp_type_gps : ℕ
timestamp_type_gps = 2

-- GetEthPacketTimestamp: `stamp` is the packet's, `now` the clock's.
unfoldable pub get_eth_packet_timestamp : ℕ → ℕ → ℕ → ℕ
get_eth_packet_timestamp timestamp_type stamp now =
    if (timestamp_type == timestamp_type_gptp_or_ptp) || (timestamp_type == timestamp_type_gps)
    then stamp
    else now

-- kLineNumberHAP, kLineNumberMid360 and kLineNumberDefault.
unfoldable pub line_num_of : DeviceType → ℕ
line_num_of industrial_hap = 6
line_num_of mid360 = 4
line_num_of mid360s = 4
line_num_of other = 1

-- `packet.point_interval`; `none` is a division by 0.
unfoldable pub point_interval_of : ℕ → ℕ → Option ℕ
point_interval_of time_interval dot_num =
    if dot_num == 0 then none else some (time_interval * 100 / dot_num)

module _ {R : Type 0} where
  unfoldable pub receive : ℕ → DeviceType → EthernetPacket R → ℕ → Option (Received R)
  unfolding get_eth_packet_timestamp line_num_of point_interval_of
  receive handle dev_type data_in now = elim data_in.payload [
    | imu_data imu ↦ some (
        imu_reading (record {
          lidar_type = livox_lidar_type;
          handle = handle;
          time_stamp = get_eth_packet_timestamp data_in.time_type data_in.timestamp now;
          gyro_x = imu.gyro_x;
          gyro_y = imu.gyro_y;
          gyro_z = imu.gyro_z;
          acc_x = imu.acc_x;
          acc_y = imu.acc_y;
          acc_z = imu.acc_z;
        }))
    | point_data raw ↦ do
      point_interval ← point_interval_of data_in.time_interval data_in.dot_num
      some (
          raw_packet (record {
            lidar_type = livox_lidar_type;
            handle = handle;
            extrinsic_enable = false;
            point_num = data_in.dot_num;
            line_num = line_num_of dev_type;
            time_stamp = get_eth_packet_timestamp data_in.time_type data_in.timestamp now;
            point_interval = point_interval;
            raw_data = raw;
          }))
  ]

  unfoldable pub on_livox_lidar_point_cloud_callback :
      ℕ → DeviceType → EthernetPacket R → ℕ → PubHandler R → Option (Received R × PubHandler R)
  unfolding receive
  on_livox_lidar_point_cloud_callback handle dev_type data_in now s = do
    received ← receive handle dev_type data_in now
    some (
      received,
      record s { is_timestamp_sync = not (data_in.time_type == timestamp_type_no_sync) },
    )
