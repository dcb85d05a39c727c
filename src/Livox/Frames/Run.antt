-- ===== src/Livox/Frames/Run.antt =====
-- Over a run of both threads no fault occurs and no point is lost or doubled.
use firt_version_ws.Prelude.{
  ℕ, ◌+◌, ◌*◌, ◌/◌, ◌≤◌, ◌<◌, Bool, true, false, not, if◌then◌else◌, ◌≡◌, ◌≢◌, refl, ap, inl, inr,
  Bool-cases, none, some, List, [], ◌∷◌, ◌++◌, All, arith, length, length-append, ◌==◌,
}
use firt_version_ws.Platform.{Platform}
use firt_version_ws.Livox.Data.{PointXyzlt, livox_lidar_type}
use firt_version_ws.Livox.Lds.{ImuData}
use firt_version_ws.Livox.Frames.{RawPacket}
use firt_version_ws.Livox.Frames.Timer.{PubHandler, PointFrame, find}
use firt_version_ws.Livox.Frames.Callback.{
  DeviceType, get_eth_packet_timestamp, line_num_of, timestamp_type_no_sync, EthernetPacket,
  Payload, imu_data, point_data, receive, point_interval_of, on_livox_lidar_point_cloud_callback,
}
use firt_version_ws.Livox.Frames.Laws.{Ascending, find-below, points_at, points_in, points_in_all}
use firt_version_ws.Livox.Frames.Step.{HasPoints, raw_data_process-Round}
use firt_version_ws.Livox.Frames.Queue.{
  PacketStream, Output, PacketEvent, delivered, processed, deliver, process_from, packet_step,
  packet_run,
}

-- The lidars that send.
abbrev pub contains : ℕ → List ℕ → Bool
contains id [] = false
contains id (k ∷ known) = if id == k then true else contains id known

-- The first occurrence is taken out.
remove : ℕ → List ℕ → List ℕ
remove id [] = []
remove id (k ∷ known) = let rest = remove id known in if id == k then known else k ∷ rest

length-remove :
    (id : ℕ) (known : List ℕ)
    → contains id known ≡ true
    → length (remove id known) + 1 ≡ length known
unfolding remove
length-remove id [] h = cc
length-remove id (k ∷ known) h = ground (arith, h, length-remove id known)

contains-remove :
    (id other : ℕ) (known : List ℕ)
    → other ≢ id
    → contains other (remove id known) ≡ false
    → contains other known ≡ false
unfolding remove
contains-remove id other [] n h = refl
contains-remove id other (k ∷ known) n h = ground (arith, n, h, contains-remove id other known n)

-- Handlers of known lidars, one for each, are no more than the lidars.
length-known :
    {A : Type 0} (handlers : List (ℕ × A)) (known : List ℕ)
    → Ascending handlers
    → ((id : ℕ) → contains id known ≡ false → find id handlers ≡ none)
    → length handlers ≤ length known
length-known [] known up all = omega arith
length-known ((k, a) ∷ handlers) known up all = elim (Bool-cases (contains k known)) [
  | inr unknown ↦ absurd (ground (arith, all k unknown))
  | inl there ↦
      let fewer = length-known handlers (remove k known) up.1 (λ id h. elim (Bool-cases (id == k)) [
        | inl same ↦ find-below id k handlers (ground (arith, same)) up.0
        | inr differ ↦
            let n : id ≢ k = λ e. ground (arith, differ, e) in
            let gone = all id (contains-remove k id known n h) in ground (arith, gone, differ)
      ]) in
      omega (arith, fewer, length-remove k known there)
]

module _ {R : Type 0} (known : List ℕ) where
  -- A packet of a known lidar, with the points that it says.
  abbrev pub IsWhole : RawPacket R → Type 0
  IsWhole pkt =
      (pkt.lidar_type ≡ livox_lidar_type)
      × HasPoints pkt.point_num pkt.raw_data
      × (contains pkt.handle known ≡ true)

  abbrev pub HasContent : ℕ → Payload R → Type 0
  HasContent dot_num (imu_data imu) = Unit {0}
  HasContent dot_num (point_data raw) = (0 < dot_num) × HasPoints dot_num raw

  -- What the SDK delivers comes from a known lidar and has at least one point, as many as it says.
  abbrev pub IsServed : PacketEvent R → Type 0
  IsServed (delivered handle dev_type data_in now) =
      HasContent data_in.dot_num data_in.payload × (contains handle known ≡ true)
  IsServed (processed now) = Unit {0}

  pub record IsRunning (s : PacketStream R) : Type 0 where
    pub interval : 0 < s.handler.publish_interval_ms
    pub ascending : Ascending s.handler.lidar_process_handlers
    pub ids : (id : ℕ) → contains id known ≡ false → find id s.handler.lidar_process_handlers ≡ none
    pub queue : All IsWhole s.raw_packet_queue

module _ {R : Type 0} where
  -- The number of points of a lidar that are queued, that are in the handlers or queued, and that an
  -- event brings.
  abbrev pub queued : ℕ → List (RawPacket R) → ℕ
  queued id [] = 0
  queued id (pkt ∷ queue) = (if id == pkt.handle then pkt.point_num else 0) + queued id queue

  abbrev pub load : ℕ → PacketStream R → ℕ
  load id s = length (points_at id s.handler.lidar_process_handlers) + queued id s.raw_packet_queue

  abbrev pub brought : ℕ → ℕ → ℕ → Payload R → ℕ
  brought id handle dot_num (imu_data imu) = 0
  brought id handle dot_num (point_data raw) = if id == handle then dot_num else 0

  abbrev pub came : ℕ → List (PacketEvent R) → ℕ
  came id [] = 0
  came id (delivered handle dev_type data_in now ∷ events) =
      brought id handle data_in.dot_num data_in.payload + came id events
  came id (processed now ∷ events) = came id events

  queued-append :
      (id : ℕ) (queue : List (RawPacket R)) (pkt : RawPacket R)
      → queued id (queue ++ (pkt ∷ []))
        ≡ queued id queue + (if id == pkt.handle then pkt.point_num else 0)
  queued-append id [] pkt = omega arith
  queued-append id (q ∷ queue) pkt = omega (arith, queued-append id queue pkt)

  All-append :
      (P : RawPacket R → Type 0) (queue : List (RawPacket R)) (pkt : RawPacket R)
      → All P queue
      → P pkt
      → All P (queue ++ (pkt ∷ []))
  All-append P [] pkt h k = (k, tt)
  All-append P (q ∷ queue) pkt h k = (h.0, All-append P queue pkt h.1 k)

  points_in_all-append :
      (id : ℕ) (fs gs : List (PointFrame R))
      → length (points_in_all id (fs ++ gs))
        ≡ length (points_in_all id fs) + length (points_in_all id gs)
  points_in_all-append id [] gs = omega arith
  points_in_all-append id (f ∷ fs) gs = omega (
    arith,
    length-append (points_in id f) (points_in_all id (fs ++ gs)),
    length-append (points_in id f) (points_in_all id fs),
    points_in_all-append id fs gs,
  )

  length-if :
      (b : Bool) (points : List (PointXyzlt R))
      → length (if b then points else []) ≡ (if b then length points else 0)
  length-if true points = refl
  length-if false points = refl

module _ {R : Type 0} ⦃p : Platform R⦄ (known : List ℕ) (few : length known < 32) where
  -- A step succeeds, the threads can go on, and each lidar's points are counted.
  record Steps (e : PacketEvent R) (s : PacketStream R) : Type 0 where
    output : Output R
    after : PacketStream R
    returns : packet_step e s ≡ some (output, after)
    running : IsRunning known after
    counted :
        (id : ℕ)
        → length (points_in_all id output.frames) + load id after ≡ load id s + came id (e ∷ [])

  abbrev synced : EthernetPacket R → PubHandler R → PubHandler R
  synced data_in h = record h {
    is_timestamp_sync = not (data_in.time_type == timestamp_type_no_sync);
  }

  delivered-Steps :
      (handle : ℕ) (dev_type : DeviceType) (data_in : EthernetPacket R) (now : ℕ)
      (s : PacketStream R) (payload : Payload R)
      → data_in.payload ≡ payload
      → IsRunning known s
      → HasContent known data_in.dot_num payload
      → contains handle known ≡ true
      → Steps (delivered handle dev_type data_in now) s
  unfolding packet_step deliver on_livox_lidar_point_cloud_callback receive point_interval_of
  delivered-Steps handle dev_type data_in now s (imu_data imu) e r h there =
      let reading : ImuData R = record {
        lidar_type = livox_lidar_type;
        handle = handle;
        time_stamp = get_eth_packet_timestamp data_in.time_type data_in.timestamp now;
        gyro_x = imu.gyro_x;
        gyro_y = imu.gyro_y;
        gyro_z = imu.gyro_z;
        acc_x = imu.acc_x;
        acc_y = imu.acc_y;
        acc_z = imu.acc_z;
      } in
      record {
        output = record { readings = reading ∷ []; frames = [] };
        after = record s { handler = synced data_in s.handler };
        returns = rw e refl;
        running = record {
          interval = r.interval;
          ascending = r.ascending;
          ids = r.ids;
          queue = r.queue;
        };
        counted = λ id. rw e (omega arith);
      }
  delivered-Steps handle dev_type data_in now s (point_data raw) e r h there =
      let some_points : (data_in.dot_num == 0) ≡ false = ground (arith, h.0) in
      let packet : RawPacket R = record {
        lidar_type = livox_lidar_type;
        handle = handle;
        extrinsic_enable = false;
        point_num = data_in.dot_num;
        line_num = line_num_of dev_type;
        time_stamp = get_eth_packet_timestamp data_in.time_type data_in.timestamp now;
        point_interval = data_in.time_interval * 100 / data_in.dot_num;
        raw_data = raw;
      } in
      record {
        output = record { readings = []; frames = [] };
        after = record {
          handler = synced data_in s.handler;
          raw_packet_queue = s.raw_packet_queue ++ (packet ∷ []);
        };
        returns = rw (e, some_points) refl;
        running = record {
          interval = r.interval;
          ascending = r.ascending;
          ids = r.ids;
          queue = All-append (IsWhole known) s.raw_packet_queue packet r.queue (refl, h.1, there);
        };
        counted = λ id. rw e (omega (arith, queued-append id s.raw_packet_queue packet));
      }

  processed-Steps :
      (now : ℕ) (s : PacketStream R) (queue : List (RawPacket R))
      → s.raw_packet_queue ≡ queue
      → IsRunning known s
      → All (IsWhole known) queue
      → Steps (processed now) s
  unfolding packet_step process_from
  processed-Steps now s [] e r h = record {
    output = record { readings = []; frames = [] };
    after = s;
    returns = rw e refl;
    running = r;
    counted = λ id. omega arith;
  }
  processed-Steps now s (pkt ∷ rest) e r h =
      let room = length-known s.handler.lidar_process_handlers known r.ascending r.ids in
      let (frames, s', f, k) =
        raw_data_process-Round pkt now s.handler h.0.0 h.0.1 r.interval r.ascending (omega arith) in
      record {
        output = record { readings = []; frames = frames };
        after = record { handler = s'; raw_packet_queue = rest };
        returns = rw (e, f) refl;
        running = record {
          interval = omega (arith, r.interval, k.interval);
          ascending = k.ascending;
          ids = λ id unknown.
              k.ids id (λ same. ground (arith, unknown, same, h.0.2)) (r.ids id unknown);
          queue = h.1;
        };
        counted = λ id.
            let points = if id == pkt.handle then k.points else [] in
            omega (
              arith,
              ap (λ l. length l) (k.kept id),
              length-append (points_in_all id frames) (points_at id s'.lidar_process_handlers),
              length-append (points_at id s.handler.lidar_process_handlers) points,
              length-if (id == pkt.handle) k.points,
              ap (λ n. if id == pkt.handle then n else 0) k.as_many,
              ap (queued id) e,
            );
      }

  packet_step-Steps :
      (e : PacketEvent R) (s : PacketStream R) → IsRunning known s → IsServed known e → Steps e s
  packet_step-Steps (delivered handle dev_type data_in now) s r h =
      delivered-Steps handle dev_type data_in now s data_in.payload refl r h.0 h.1
  packet_step-Steps (processed now) s r h = processed-Steps now s s.raw_packet_queue refl r r.queue

  came-cons :
      (id : ℕ) (e : PacketEvent R) (events : List (PacketEvent R))
      → came id (e ∷ events) ≡ came id (e ∷ []) + came id events
  came-cons id (delivered handle dev_type data_in now) events = omega arith
  came-cons id (processed now) events = omega arith

  -- For fewer than 32 lidars, packets that have at least one point and as many as they say, and an
  -- interval of at least 1 ms: every run of the SDK's callback and RawDataProcess, in any order, ends
  -- without a fault, the threads can go on, and for each lidar the points published, those that wait
  -- in its handler and those of its queued packets are together as many as before and brought.
  pub packet_run-counted :
      (events : List (PacketEvent R)) (s : PacketStream R)
      → IsRunning known s
      → All (IsServed known) events
      → (frames : List (PointFrame R)) × (s' : PacketStream R) × (packet_run events s
          ≡ some (frames, s'))
        × IsRunning known s'
        × ((id : ℕ) → length (points_in_all id frames) + load id s' ≡ load id s + came id events)
  unfolding packet_run
  packet_run-counted [] s r served = ([], s, refl, r, λ id. omega arith)
  packet_run-counted (e ∷ events) s r served =
      let one = packet_step-Steps e s r served.0 in
      let (frames, s', f, r', all) = packet_run-counted events one.after one.running served.1 in
      (
        one.output.frames ++ frames,
        s',
        rw (one.returns, f) refl,
        r',
        λ id. omega (
          arith,
          all id,
          one.counted id,
          points_in_all-append id one.output.frames frames,
          came-cons id e events,
        ),
      )
