-- ===== src/Livox/Ldq.antt =====
-- comm/ldq.h and comm/ldq.cpp: a ring of packets whose size is a power of two and whose two indices
-- are uint32_t counters that wrap. The queue pointers are never null.
pub mod Init
pub mod Ring
pub mod Queue
pub mod Refine
use firt_version_ws.Prelude.{
  ℕ, zero, suc, ◌+◌, ◌-◌, ◌^◌, Bool, true, false, not, ◌&&◌, if◌then◌else◌, Option, none, some,
  List, [], ◌∷◌, ltb, leb, ◌==◌, get_elem?, set, replicate, read_first, add32, sub32, and32, ◌>>=◌,
}
use firt_version_ws.Livox.Data.{PointPacket, StoragePacket}

-- The pointer `storage_packet`: null, to an array, or to an array that is deleted.
pub data Storage (A : Type 0) : Type 0 where
  null : Storage A
  live : List A → Storage A
  freed : Storage A

pub record LidarDataQueue (R : Type 0) : Type 0 where
  pub storage_packet : Storage (StoragePacket R)
  pub rd_idx : ℕ
  pub wr_idx : ℕ
  pub mask : ℕ
  pub size : ℕ

unfoldable pub is_power_of_2 : ℕ → Bool
is_power_of_2 size = not (size == 0) && (and32 size (size - 1) == 0)

-- The loop of RoundupPowerOf2 with `rounds` rounds left, at i, after the value `last`.
unfoldable pub roundup_from : ℕ → ℕ → ℕ → ℕ → ℕ
roundup_from zero i last size = last
roundup_from (suc rounds) i last size =
    let rest = roundup_from rounds (i + 1) (2 ^ i) size in if leb size (2 ^ i) then 2 ^ i else rest

unfoldable pub roundup_power_of_2 : ℕ → ℕ
unfolding roundup_from
roundup_power_of_2 size = roundup_from 32 0 0 size

unfoldable pub queue_size_for : ℕ → ℕ
unfolding is_power_of_2 roundup_power_of_2
queue_size_for queue_size =
    if is_power_of_2 queue_size then queue_size else roundup_power_of_2 queue_size

module _ {R : Type 0} where
  -- `if (storage_packet) delete[] storage_packet;` runs into no deleted array.
  abbrev pub can_delete : Storage (StoragePacket R) → Bool
  can_delete freed = false
  can_delete _ = true

  -- An array of packets as `new` leaves them, `blank`. `none`: an array is deleted twice.
  unfoldable pub init_queue : StoragePacket R → ℕ → LidarDataQueue R → Option (LidarDataQueue R)
  unfolding queue_size_for
  init_queue blank queue_size q =
      let size = queue_size_for queue_size in
      if can_delete q.storage_packet
      then some (record {
        storage_packet = live (replicate size blank);
        rd_idx = 0;
        wr_idx = 0;
        mask = size - 1;
        size = size;
      })
      else none

  abbrev pub deleted : Storage (StoragePacket R) → Storage (StoragePacket R)
  deleted null = null
  deleted _ = freed

  -- The pointer keeps its value.
  unfoldable pub deinit_queue : LidarDataQueue R → Option (LidarDataQueue R)
  deinit_queue q =
      if can_delete q.storage_packet
      then some (record {
        storage_packet = deleted q.storage_packet;
        rd_idx = 0;
        wr_idx = 0;
        mask = 0;
        size = 0;
      })
      else none

  unfoldable pub reset_queue : LidarDataQueue R → LidarDataQueue R
  reset_queue q = record q { rd_idx = 0; wr_idx = 0 }

  unfoldable pub queue_used_size : LidarDataQueue R → ℕ
  queue_used_size q = sub32 q.wr_idx q.rd_idx

  unfoldable pub queue_unused_size : LidarDataQueue R → ℕ
  unfolding queue_used_size
  queue_unused_size q = sub32 q.size (queue_used_size q)

  unfoldable pub queue_is_full : LidarDataQueue R → Bool
  queue_is_full q = ltb q.mask (sub32 q.wr_idx q.rd_idx)

  unfoldable pub queue_is_empty : LidarDataQueue R → Bool
  queue_is_empty q = q.rd_idx == q.wr_idx

  -- The packet that is read, as far as its points_num says. `none`: no live array, or a read past
  -- the end of it or of the points.
  unfoldable pub read_slot : Storage (StoragePacket R) → ℕ → Option (StoragePacket R)
  read_slot (live slots) i = do
    slot ← get_elem? slots i
    points ← read_first slot.points_num slot.points
    some (record { base_time = slot.base_time; points_num = slot.points_num; points = points })
  read_slot _ i = none

  -- The inner `none` is the result false.
  unfoldable pub queue_pre_pop : LidarDataQueue R → Option (Option (StoragePacket R))
  unfolding queue_is_empty read_slot
  queue_pre_pop q =
      if queue_is_empty q
      then some none
      else do packet ← read_slot q.storage_packet (and32 q.rd_idx q.mask); some (some packet)

  unfoldable pub queue_pop_update : LidarDataQueue R → LidarDataQueue R
  queue_pop_update q = record q { rd_idx = add32 q.rd_idx 1 }

  -- What follows QueuePrePop in QueuePop.
  abbrev pub after_pre_pop :
      LidarDataQueue R → Option (StoragePacket R) → Option (StoragePacket R) × LidarDataQueue R
  after_pre_pop q none = (none, q)
  after_pre_pop q (some packet) = (some packet, queue_pop_update q)

  unfoldable pub queue_pop : LidarDataQueue R → Option (Option (StoragePacket R) × LidarDataQueue R)
  unfolding queue_pre_pop queue_pop_update
  queue_pop q = do popped ← queue_pre_pop q; some (after_pre_pop q popped)

  unfoldable pub write_slot :
      Storage (StoragePacket R) → ℕ → StoragePacket R → Option (Storage (StoragePacket R))
  write_slot (live slots) i packet = do slot ← get_elem? slots i; some (live (set slots i packet))
  write_slot _ i packet = none

  -- It does not ask whether the queue is full.
  unfoldable pub queue_push_any : PointPacket R → ℕ → LidarDataQueue R → Option (LidarDataQueue R)
  unfolding write_slot
  queue_push_any lidar_data base_time q = do
    points ← read_first lidar_data.points_num lidar_data.points
    storage ←
        write_slot q.storage_packet (and32 q.wr_idx q.mask)
          (record { base_time = base_time; points_num = lidar_data.points_num; points = points })
    some (record q { storage_packet = storage; wr_idx = add32 q.wr_idx 1 })
