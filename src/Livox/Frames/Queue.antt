-- ===== src/Livox/Frames/Queue.antt =====
-- PubHandler's two threads: the SDK's puts raw packets into a queue, and RawDataProcess takes them out.
use firt_version_ws.Prelude.{ℕ, Option, some, List, [], ◌∷◌, ◌++◌, ◌>>=◌}
use firt_version_ws.Livox.Lds.{ImuData}
use firt_version_ws.Livox.Frames.{RawPacket}
use firt_version_ws.Livox.Frames.Timer.{PubHandler, PointFrame, raw_data_process}
use firt_version_ws.Livox.Frames.Callback.{
  DeviceType, EthernetPacket, Received, imu_reading, raw_packet,
  on_livox_lidar_point_cloud_callback,
}

-- PubHandler with its queue.
pub record PacketStream (R : Type 0) : Type 0 where
  pub handler : PubHandler R
  pub raw_packet_queue : List (RawPacket R)

-- What a step hands on: readings to imu_callback_, frames to points_callback_.
pub record Output (R : Type 0) : Type 0 where
  pub readings : List (ImuData R)
  pub frames : List (PointFrame R)

module _ {R : Type 0} where
  abbrev pub take_received : Received R → PacketStream R → Output R × PacketStream R
  take_received (imu_reading d) s = (record { readings = d ∷ []; frames = [] }, s)
  take_received (raw_packet packet) s = (
    record { readings = []; frames = [] },
    record s { raw_packet_queue = s.raw_packet_queue ++ (packet ∷ []) },
  )

  -- The callback, with its call of imu_callback_ and its push.
  unfoldable pub deliver :
      ℕ → DeviceType → EthernetPacket R → ℕ → PacketStream R → Option (Output R × PacketStream R)
  deliver handle dev_type data_in now s = do
    r ← on_livox_lidar_point_cloud_callback handle dev_type data_in now s.handler
    some (take_received r.0 (record s { handler = r.1 }))

-- What happens: the SDK delivers, or RawDataProcess goes round, CheckTimer reading the clock.
pub data PacketEvent (R : Type 0) : Type 0 where
  delivered : ℕ → DeviceType → EthernetPacket R → ℕ → PacketEvent R
  processed : ℕ → PacketEvent R

module _ {R : Type 0} ⦃p : firt_version_ws.Platform.Platform R⦄ where
  -- A round, which only waits if the queue is empty.
  unfoldable pub process_from :
      List (RawPacket R) → ℕ → PacketStream R → Option (Output R × PacketStream R)
  process_from [] now s = some (record { readings = []; frames = [] }, s)
  process_from (raw_data ∷ rest) now s = do
    r ← raw_data_process raw_data now s.handler
    some (record { readings = []; frames = r.0 }, record { handler = r.1; raw_packet_queue = rest })

  unfoldable pub packet_step : PacketEvent R → PacketStream R → Option (Output R × PacketStream R)
  unfolding deliver process_from
  packet_step (delivered handle dev_type data_in now) s = deliver handle dev_type data_in now s
  packet_step (processed now) s = process_from s.raw_packet_queue now s

  -- The frames of a run. `none` is a fault.
  unfoldable pub packet_run :
      List (PacketEvent R) → PacketStream R → Option (List (PointFrame R) × PacketStream R)
  unfolding packet_step
  packet_run [] s = some ([], s)
  packet_run (e ∷ events) s = do
    now ← packet_step e s
    later ← packet_run events now.1
    some (now.0.frames ++ later.0, later.1)
