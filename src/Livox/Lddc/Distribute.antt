-- ===== src/Livox/Lddc/Distribute.antt =====
-- One call of DistributePointCloudData: it publishes what the sampling devices hold, and only that.
use firt_version_ws.Prelude.{
  ℕ, suc, ◌+◌, ◌≤◌, ◌<◌, Bool, true, false, if◌then◌else◌, ◌≡◌, refl, ap, ◌∙◌, some, List, [], ◌∷◌,
  ◌++◌, if_false, ◌>>=◌,
}
use firt_version_ws.Livox.Data.{StoragePacket}
use firt_version_ws.Livox.Ldq.{live}
use firt_version_ws.Livox.Lds.{LidarDevice, Lds, semaphore_wait}
use firt_version_ws.Livox.Lds.Laws.{Ready, unset, holding}
use firt_version_ws.Livox.Lddc.{
  Settings, Sent, is_sampling, polling_loop, polling_lidar_point_cloud_data, distribute_from,
  distribute_point_cloud_data,
}
use firt_version_ws.Livox.Lddc.Laws.{sent_all, messages_of, polling_loop-Holds}

module _ {R : Type 0} (blank : StoragePacket R) where
  -- The packets that each device's queue holds.
  pub data AllReady : List (LidarDevice R) → List (List (StoragePacket R)) → Type 0 where
    no_device : AllReady [] []
    device :
        {d : LidarDevice R} {packets : List (StoragePacket R)} {ds : List (LidarDevice R)}
        {rest : List (List (StoragePacket R))}
        → Ready blank d.packets packets
        → AllReady ds rest
        → AllReady (d ∷ ds) (packets ∷ rest)

module _ {R : Type 0} where
  -- What is left in the queues: those of the sampling devices are empty.
  abbrev pub left_over :
      List (LidarDevice R) → List (List (StoragePacket R)) → List (List (StoragePacket R))
  left_over (d ∷ ds) (packets ∷ rest) =
      (if is_sampling d.connect_state then [] else packets) ∷ left_over ds rest
  left_over _ _ = []

module _ {R : Type 0} (blank : StoragePacket R) (to_uint8 : R → ℕ) (to_double : ℕ → R) where
  -- What is sent: device by device the messages for the packets, in their order.
  abbrev pub sent_from :
      Settings → ℕ → List (LidarDevice R) → List (List (StoragePacket R)) → Sent R
  sent_from c index (d ∷ ds) (packets ∷ rest) =
      (if is_sampling d.connect_state
        then sent_all (messages_of blank to_uint8 to_double c d) c index packets
        else [])
      ++ sent_from c (index + 1) ds rest
  sent_from c index _ _ = []

  polling-live :
      (c : Settings) (fuel index : ℕ) (d : LidarDevice R) (slots : List (StoragePacket R))
      → d.packets.storage_packet ≡ live slots
      → polling_lidar_point_cloud_data to_uint8 to_double c false fuel index d ≡ (do
        polled ← polling_loop to_uint8 to_double c false index d fuel d.packets
        some (polled.0, record d { packets = polled.1 }))
  unfolding polling_lidar_point_cloud_data
  polling-live c fuel index d slots e = rw e refl

  polling-Ready :
      (c : Settings) (fuel index : ℕ) (d : LidarDevice R) (packets : List (StoragePacket R))
      → c.transfer_format < 2
      → 2 ≤ fuel
      → Ready blank d.packets packets
      → (d' : LidarDevice R) × (polling_lidar_point_cloud_data to_uint8 to_double c false fuel index
            d
          ≡ some (sent_all (messages_of blank to_uint8 to_double c d) c index packets, d'))
        × Ready blank d'.packets []
  unfolding polling_lidar_point_cloud_data
  polling-Ready c fuel index d packets l m (unset e) = (d, rw e refl, unset e)
  polling-Ready c fuel index d packets l m (holding h) =
      let (q, e, k) =
        polling_loop-Holds blank to_uint8 to_double c index d fuel d.packets packets l m h in
      (
        record d { packets = q },
        polling-live c fuel index d h.slots h.storage ∙ (rw e refl),
        holding k,
      )

  polled-Ready :
      (c : Settings) (fuel index : ℕ) (d : LidarDevice R) (packets : List (StoragePacket R))
      → c.transfer_format < 2
      → 2 ≤ fuel
      → Ready blank d.packets packets
      → (sampled : Bool)
      → (d' : LidarDevice R) × ((if sampled
            then polling_lidar_point_cloud_data to_uint8 to_double c false fuel index d
            else some ([], d))
          ≡ some (
            if sampled
                then sent_all (messages_of blank to_uint8 to_double c d) c index packets
                else [],
            d',
          ))
        × Ready blank d'.packets (if sampled then [] else packets)
  polled-Ready c fuel index d packets l m ready true =
      polling-Ready c fuel index d packets l m ready
  polled-Ready c fuel index d packets l m ready false = (d, refl, ready)

  distribute_from-AllReady :
      (c : Settings) (fuel index : ℕ) (ds : List (LidarDevice R))
      (held : List (List (StoragePacket R)))
      → c.transfer_format < 2
      → 2 ≤ fuel
      → AllReady blank ds held
      → (ds' : List (LidarDevice R)) × (distribute_from to_uint8 to_double c false fuel index ds
          ≡ some (sent_from c index ds held, ds'))
        × AllReady blank ds' (left_over ds held)
  unfolding distribute_from
  distribute_from-AllReady c fuel index [] [] l m no_device = ([], refl, no_device)
  distribute_from-AllReady c fuel index [] (packets ∷ held) l m ready = elim ready [ ]
  distribute_from-AllReady c fuel index (d ∷ ds) [] l m ready = elim ready [ ]
  distribute_from-AllReady c fuel index (d ∷ ds) (packets ∷ held) l m (device ready rest) =
      let (d', e, k) =
        polled-Ready c fuel index d packets l m ready (is_sampling d.connect_state) in
      let (ds', f, all) = distribute_from-AllReady c fuel (index + 1) ds held l m rest in
      (d' ∷ ds', rw (e, f) refl, device k all)

  -- With one of the two formats that are supported, no request to exit, a semaphore above 0, queues
  -- that are in order (AllReady) and two rounds of fuel, a call ends, takes one from the semaphore,
  -- sends the messages for every packet of the sampling devices, device by device and in order, and
  -- leaves their queues empty and the other queues with the packets that they held.
  pub distribute_point_cloud_data-AllReady :
      (c : Settings) (fuel count : ℕ) (s : Lds R) (held : List (List (StoragePacket R)))
      → c.transfer_format < 2
      → 2 ≤ fuel
      → s.request_exit ≡ false
      → s.pcd_semaphore ≡ suc count
      → AllReady blank s.lidars held
      → (s' : Lds R) × (distribute_point_cloud_data to_uint8 to_double c fuel s
          ≡ some (some (sent_from c 0 s.lidars held, s')))
        × (s'.pcd_semaphore ≡ count)
        × AllReady blank s'.lidars (left_over s.lidars held)
  unfolding distribute_point_cloud_data semaphore_wait
  distribute_point_cloud_data-AllReady c fuel count s held l m go signalled ready =
      let (ds, e, all) = distribute_from-AllReady c fuel 0 s.lidars held l m ready in
      let started = ap (λ x. distribute_from to_uint8 to_double c x fuel 0 s.lidars) go ∙ e in
      (
        record s { lidars = ds; pcd_semaphore = count },
        if_false _ _ go ∙ (rw (signalled, started) refl),
        refl,
        all,
      )
