-- ===== src/Livox/Lds/Laws.antt =====
-- Storing packets: a device's queue is a bounded queue, and what resetting a device twice does.
use firt_version_ws.Prelude.{
  ℕ, ◌<◌, ◌^◌, true, false, ◌≡◌, refl, ap, ◌∙◌, ◌⊎◌, Option, none, some, List, [], ◌∷◌, ◌++◌, arith,
  length, length-append, ◌==◌, inl, inr, Bool-cases, Option-cases, read_first, if_true, ltb, not,
  ◌>>=◌, set, get_elem?,
}
use firt_version_ws.Platform.{Platform}
use firt_version_ws.Livox.Data.{PointPacket, StoragePacket}
use firt_version_ws.Livox.Ldq.{
  LidarDataQueue, null, live, freed, init_queue, queue_is_full, queue_is_empty, deinit_queue,
  write_slot, queue_pop, queue_push_any, queue_size_for, can_delete,
}
use firt_version_ws.Livox.Ldq.Queue.{Op, push, pop, offer, poll, queue_run}
use firt_version_ws.Livox.Ldq.Refine.{
  Holds, packet_of, init_queue-Holds, queue_is_full-length, queue_is_empty-length, size-le,
  queue_push_any-Holds, queue_pop-Holds, queue_pop-empty,
}
use firt_version_ws.Livox.Lds.{
  Lds, LidarDevice, off, reset_lidar, push_unless_full, ensure_queue, calculate_packet_queue_size,
  push_lidar_data, wake, after_push, semaphore_signal,
}

module _ {R : Type 0} where
  -- The driver's own push, with the base time, and pop.
  unfoldable pub packet_ops : List (Op (PointPacket R × ℕ)) → List (Op (StoragePacket R))
  packet_ops [] = []
  packet_ops (push (d, base_time) ∷ ops) = push (packet_of d base_time) ∷ packet_ops ops
  packet_ops (pop ∷ ops) = pop ∷ packet_ops ops

  -- What each pop returns, and the queue at the end.
  unfoldable pub storage_run :
      List (Op (PointPacket R × ℕ))
      → LidarDataQueue R
      → Option (List (Option (StoragePacket R)) × LidarDataQueue R)
  storage_run [] q = some ([], q)
  storage_run (push (d, base_time) ∷ ops) q = do
    q' ← push_unless_full d base_time q
    storage_run ops q'
  storage_run (pop ∷ ops) q = do
    popped ← queue_pop q
    rest ← storage_run ops popped.1
    some (popped.0 ∷ rest.0, rest.1)

  -- Every packet that is pushed has the points that it says.
  abbrev pub AllWhole : List (Op (PointPacket R × ℕ)) → Type 0
  AllWhole [] = Unit {0}
  AllWhole (push (d, base_time) ∷ ops) = (length d.points ≡ d.points_num) × AllWhole ops
  AllWhole (pop ∷ ops) = AllWhole ops

module _ {R : Type 0} (blank : StoragePacket R) where
  -- A push offers its packet.
  push_unless_full-Holds :
      (d : PointPacket R) (base_time : ℕ) (q : LidarDataQueue R) (packets : List (StoragePacket R))
      {size : ℕ}
      → q.size ≡ size
      → Holds blank q packets
      → length d.points ≡ d.points_num
      → (q' : LidarDataQueue R) × (push_unless_full d base_time q ≡ some q')
        × (q'.size ≡ size)
        × Holds blank q' (offer size (packet_of d base_time) packets)
  unfolding push_unless_full offer
  push_unless_full-Holds d base_time q packets {size} s h whole =
      elim (Bool-cases (ltb (length packets) size)) [
        | inl space ↦
            let full : queue_is_full q ≡ false =
              queue_is_full-length blank q packets h
              ∙ ap not (ap (ltb (length packets)) s ∙ space) in
            let (q', e, same, k) =
              queue_push_any-Holds blank d base_time q packets h (ground (arith, s, space)) whole in
            rw (full, space) (q', e, same ∙ s, k)
        | inr none_left ↦
            let full : queue_is_full q ≡ true =
              queue_is_full-length blank q packets h
              ∙ ap not (ap (ltb (length packets)) s ∙ none_left) in
            rw (full, none_left) (q, refl, s, h)
      ]

  storage_run-Holds :
      (ops : List (Op (PointPacket R × ℕ))) (q : LidarDataQueue R)
      (packets : List (StoragePacket R)) {size : ℕ}
      → q.size ≡ size
      → Holds blank q packets
      → AllWhole ops
      → (q' : LidarDataQueue R) × (storage_run ops q
          ≡ some ((queue_run size (packet_ops ops) packets).0, q'))
        × Holds blank q' (queue_run size (packet_ops ops) packets).1
  unfolding storage_run queue_run packet_ops poll offer
  storage_run-Holds [] q packets s h whole = (q, refl, h)
  storage_run-Holds (push (d, base_time) ∷ ops) q packets s h whole =
      let (q1, e, same, k) = push_unless_full-Holds d base_time q packets s h whole.0 in
      let (q2, f, l) = storage_run-Holds ops q1 _ same k whole.1 in (q2, rw e f, l)
  storage_run-Holds (pop ∷ ops) q [] s h whole =
      let (q2, f, l) = storage_run-Holds ops q [] s h whole in
      (q2, rw (queue_pop-empty blank q h, f) refl, l)
  storage_run-Holds (pop ∷ ops) q (p ∷ packets) s h whole =
      let (q1, e, same, k) = queue_pop-Holds blank q p packets h in
      let (q2, f, l) = storage_run-Holds ops q1 packets (same ∙ s) k whole in
      (q2, rw (e, f) refl, l)

  -- InitQueue sets up a queue of any size below 2 ^ 32, in place of one that is not deleted, and any
  -- pushes, of packets that have the points they say, and pops on it return what they return on a
  -- bounded queue of packets: the oldest first, and a push to a full queue dropped.
  pub storage_run-refines :
      (n : ℕ) (q : LidarDataQueue R) (ops : List (Op (PointPacket R × ℕ)))
      → n < 2 ^ 32
      → can_delete q.storage_packet ≡ true
      → AllWhole ops
      → (q' : LidarDataQueue R) × ((do fresh ← init_queue blank n q; storage_run ops fresh)
          ≡ some ((queue_run (queue_size_for n) (packet_ops ops) []).0, q'))
  storage_run-refines n q ops small ok whole =
      let (fresh, e, size, h) = init_queue-Holds blank n q small ok in
      let (q', f, k) = storage_run-Holds ops fresh [] size h whole in (q', rw (e, f) refl)

module _ {R : Type 0} (blank : StoragePacket R) where
  -- A queue that holds these packets, or one that is not set up yet, and none.
  pub data Ready (q : LidarDataQueue R) : List (StoragePacket R) → Type 0 where
    unset : q.storage_packet ≡ null → Ready q []
    holding : {packets : List (StoragePacket R)} → Holds blank q packets → Ready q packets

pub offer-room :
    {A : Type 0} (capacity : ℕ) (a : A) (queue : List A)
    → length queue < capacity
    → offer capacity a queue ≡ queue ++ (a ∷ [])
unfolding offer
offer-room capacity a queue h =
    let space : ltb (length queue) capacity ≡ true = ground (arith, h) in if_true _ _ space

offer-nonempty :
    {A : Type 0} (capacity : ℕ) (a : A) (queue : List A)
    → 0 < capacity
    → (length (offer capacity a queue) == 0) ≡ false
unfolding offer
offer-nonempty capacity a queue h =
    let grown = length-append queue (a ∷ []) in ground (arith, grown, h)

wake-pos : (count : ℕ) → 0 < wake count
unfolding wake semaphore_signal
wake-pos count = ground arith

module _ {R : Type 0} ⦃p : Platform R⦄ (cast : R → ℕ) (blank : StoragePacket R) where
  ensure_queue-null :
      (freq : R) (q : LidarDataQueue R)
      → q.storage_packet ≡ null
      → ensure_queue cast blank freq q
        ≡ init_queue blank (calculate_packet_queue_size cast blank freq) q
  unfolding ensure_queue
  ensure_queue-null freq q e = rw e refl

  ensure_queue-Holds :
      (freq : R) (q : LidarDataQueue R) (packets : List (StoragePacket R))
      → Ready blank q packets
      → (q' : LidarDataQueue R) × (ensure_queue cast blank freq q ≡ some q')
        × ((q'.size ≡ q.size) ⊎ (packets ≡ []))
        × Holds blank q' packets
  unfolding ensure_queue calculate_packet_queue_size
  ensure_queue-Holds freq q packets (unset e) =
      let small : calculate_packet_queue_size cast blank freq < 2 ^ 32 = ground arith in
      let (q', f, same, h) = init_queue-Holds blank _ q small (ap can_delete e) in
      (q', ensure_queue-null freq q e ∙ f, inr refl, h)
  ensure_queue-Holds freq q packets (holding h) = (q, rw h.storage refl, inl refl, h)

  -- PushLidarData succeeds: the device's queue then holds what it held and the packet, if there was
  -- room, nothing else of the devices changes, and the semaphore counts at least one, so that the
  -- thread that publishes does not wait. A queue that was set up keeps its size.
  pub push_lidar_data-Holds :
      (d : PointPacket R) (index base_time : ℕ) (s : Lds R) (device : LidarDevice R)
      (packets : List (StoragePacket R))
      → get_elem? s.lidars index ≡ some device
      → Ready blank device.packets packets
      → length d.points ≡ d.points_num
      → (s' : Lds R) × (q : LidarDataQueue R) × (push_lidar_data cast blank d index base_time s
          ≡ some s')
        × (0 < s'.pcd_semaphore)
        × (s'.request_exit ≡ s.request_exit)
        × (s'.lidars ≡ set s.lidars index (record device { packets = q }))
        × ((q.size ≡ device.packets.size) ⊎ (packets ≡ []))
        × Holds blank q (offer q.size (packet_of d base_time) packets)
  unfolding push_lidar_data
  push_lidar_data-Holds d index base_time s device packets found ready whole =
      let (q, e, kept, h) = ensure_queue-Holds s.publish_freq device.packets packets ready in
      let (q', f, same, k) = push_unless_full-Holds blank d base_time q packets refl h whole in
      let capacity = (size-le blank q packets h).0 in
      let busy : queue_is_empty q' ≡ false =
        queue_is_empty-length blank q' _ k
        ∙ offer-nonempty q.size (packet_of d base_time) packets capacity in
      (
        after_push index device q q' s,
        q',
        rw (found, e, f) refl,
        ground (arith, busy, wake-pos s.pcd_semaphore),
        refl,
        refl,
        rw same kept,
        rw same k,
      )

  -- After ResetLidar a device whose queue had its array is not given another: the next packet is
  -- written into the deleted array, and the next ResetLidar deletes it again.
  pub reset_lidar-freed :
      (data_src again base_time : ℕ) (device : LidarDevice R) (slots : List (StoragePacket R))
      → device.packets.storage_packet ≡ live slots
      → (device' : LidarDevice R) × (reset_lidar data_src device ≡ some device')
        × (reset_lidar again device' ≡ none)
        × ((freq : R) (d : PointPacket R)
            → (do q ← ensure_queue cast blank freq device'.packets; push_unless_full d base_time q)
              ≡ none)
  unfolding reset_lidar deinit_queue ensure_queue push_unless_full queue_is_full queue_push_any
      write_slot
  reset_lidar-freed data_src again base_time device slots e = (
    record device {
      packets = record { storage_packet = freed; rd_idx = 0; wr_idx = 0; mask = 0; size = 0 };
      imu_data = [];
      data_src = data_src;
      connect_state = off;
    },
    rw e refl,
    refl,
    λ freq d. elim (Option-cases (read_first d.points_num d.points)) [
      | inl past ↦ rw past refl
      | inr (points, inside) ↦ rw inside refl
    ],
  )
