-- ===== src/Livox/Lddc/Laws.antt =====
-- What the publishing loops send_messages: every packet that is stored, in order, and nothing else.
use firt_version_ws.Prelude.{
  ℕ, zero, suc, ◌≤◌, ◌<◌, Bool, true, false, if◌then◌else◌, ◌≡◌, refl, ap, Option, none, some, List,
  [], ◌∷◌, ◌++◌, arith, length, ◌==◌, inl, inr, Bool-cases,
}
use firt_version_ws.Livox.Data.{StoragePacket}
use firt_version_ws.Livox.Ldq.{LidarDataQueue, queue_is_empty, queue_used_size}
use firt_version_ws.Livox.Ldq.Refine.{
  Holds, IsPacket, queue_is_empty-length, queue_pop-Holds, length-used,
}
use firt_version_ws.Livox.Lds.{LidarDevice}
use firt_version_ws.Livox.Messages.{Message}
use firt_version_ws.Livox.Messages.Laws.{custom_messages, cloud_messages, custom_of-eq, cloud_of-eq}
use firt_version_ws.Livox.Lddc.{
  Settings, Sent, send_messages, publish_loop, publish_pointcloud2, publish_custom_pointcloud,
  publish_by_format, publish_pcl_msg, polling_loop,
}

pub append-nil : {A : Type 0} (xs : List A) → xs ++ [] ≡ xs
append-nil [] = refl
append-nil (x ∷ xs) = ap (λ ys. x ∷ ys) (append-nil xs)

module _ {R : Type 0} where
  -- What is sent for the packets in order.
  abbrev pub sent_all :
      (StoragePacket R → List (Message R)) → Settings → ℕ → List (StoragePacket R) → Sent R
  sent_all out c index [] = []
  sent_all out c index (s ∷ packets) = send_messages c index (out s) ++ sent_all out c index packets

module _ {R : Type 0} (blank : StoragePacket R) where
  queue_is_empty-busy :
      (q : LidarDataQueue R) (s : StoragePacket R) (packets : List (StoragePacket R))
      → Holds blank q (s ∷ packets)
      → queue_is_empty q ≡ false
  queue_is_empty-busy q s packets h =
      let counted = queue_is_empty-length blank q (s ∷ packets) h in ground (arith, counted)

  -- With more fuel than packets the loop ends, at an empty queue.
  publish_loop-Holds :
      (body : StoragePacket R → Option (List (Message R)))
      (out : StoragePacket R → List (Message R))
      → ((s : StoragePacket R) → IsPacket s → body s ≡ some (out s))
      → (c : Settings) (index fuel : ℕ) (q : LidarDataQueue R) (packets : List (StoragePacket R))
      → Holds blank q packets
      → length packets < fuel
      → (q' : LidarDataQueue R) × (publish_loop body c index fuel q
          ≡ some (sent_all out c index packets, q'))
        × Holds blank q' []
  unfolding publish_loop
  publish_loop-Holds body out ok c index zero q packets h l = absurd (omega arith)
  publish_loop-Holds body out ok c index (suc fuel) q [] h l =
      (q, rw (publish_loop, queue_is_empty-length blank q [] h) refl, h)
  publish_loop-Holds body out ok c index (suc fuel) q (s ∷ packets) h l =
      let busy = queue_is_empty-busy q s packets h in
      let (q1, e, same, k) = queue_pop-Holds blank q s packets h in
      let (q2, f, m) = publish_loop-Holds body out ok c index fuel q1 packets k (omega arith) in
      (q2, rw (publish_loop, busy, e, ok s h.whole.0, f) refl, m)

  used-fuel :
      (q : LidarDataQueue R) (packets : List (StoragePacket R))
      → Holds blank q packets
      → length packets < suc (queue_used_size q)
  unfolding queue_used_size
  used-fuel q packets h = omega (arith, length-used blank q packets h)

module _ {R : Type 0} (blank : StoragePacket R) (to_uint8 : R → ℕ) (to_double : ℕ → R) where
  -- The messages for a packet in the two formats that are supported.
  abbrev pub messages_of : Settings → LidarDevice R → StoragePacket R → List (Message R)
  messages_of c lidar =
      if c.transfer_format == 0
      then cloud_messages to_uint8 to_double
      else custom_messages to_uint8 to_double lidar

  publish_by_format-Holds :
      (c : Settings) (index : ℕ) (lidar : LidarDevice R) (q : LidarDataQueue R)
      (packets : List (StoragePacket R))
      → c.transfer_format < 2
      → Holds blank q packets
      → (q' : LidarDataQueue R) × (publish_by_format to_uint8 to_double c index lidar q
          ≡ some (sent_all (messages_of c lidar) c index packets, q'))
        × Holds blank q' []
  unfolding publish_by_format publish_pointcloud2 publish_custom_pointcloud
  publish_by_format-Holds c index lidar q packets l h = elim (Bool-cases (c.transfer_format == 0)) [
    | inl cloud ↦
        let (q', e, k) =
          publish_loop-Holds blank _ (cloud_messages to_uint8 to_double)
            (cloud_of-eq to_uint8 to_double) c index (suc (queue_used_size q)) q packets h
            (used-fuel blank q packets h) in
        (q', rw cloud e, k)
    | inr other ↦
        let custom : (c.transfer_format == 1) ≡ true = ground (arith, l, other) in
        let (q', e, k) =
          publish_loop-Holds blank _ (custom_messages to_uint8 to_double lidar)
            (custom_of-eq to_uint8 to_double lidar) c index (suc (queue_used_size q)) q packets h
            (used-fuel blank q packets h) in
        (q', rw (other, custom) e, k)
  ]

  polling_loop-empty :
      (c : Settings) (exit : Bool) (index : ℕ) (lidar : LidarDevice R) (fuel : ℕ)
      (q : LidarDataQueue R)
      → Holds blank q []
      → 0 < fuel
      → polling_loop to_uint8 to_double c exit index lidar fuel q ≡ some ([], q)
  unfolding polling_loop
  polling_loop-empty c exit index lidar zero q h l = absurd (omega arith)
  polling_loop-empty c true index lidar (suc fuel) q h l = refl
  polling_loop-empty c false index lidar (suc fuel) q h l =
      rw (polling_loop, queue_is_empty-length blank q [] h) refl

  -- Two rounds are enough for the loop around the publishing loop.
  pub polling_loop-Holds :
      (c : Settings) (index : ℕ) (lidar : LidarDevice R) (fuel : ℕ) (q : LidarDataQueue R)
      (packets : List (StoragePacket R))
      → c.transfer_format < 2
      → 2 ≤ fuel
      → Holds blank q packets
      → (q' : LidarDataQueue R) × (polling_loop to_uint8 to_double c false index lidar fuel q
          ≡ some (sent_all (messages_of c lidar) c index packets, q'))
        × Holds blank q' []
  unfolding polling_loop
  polling_loop-Holds c index lidar zero q packets l m h = absurd (omega arith)
  polling_loop-Holds c index lidar (suc fuel) q [] l m h =
      (q, polling_loop-empty c false index lidar (suc fuel) q h (omega arith), h)
  polling_loop-Holds c index lidar (suc fuel) q (s ∷ packets) l m h =
      let busy = queue_is_empty-busy blank q s packets h in
      let (q1, e, k) = publish_by_format-Holds c index lidar q (s ∷ packets) l h in
      let stop = polling_loop-empty c false index lidar fuel q1 k (omega arith) in
      (
        q1,
        rw
            (
              polling_loop,
              busy,
              e,
              stop,
              append-nil (sent_all (messages_of c lidar) c index (s ∷ packets)),
            )
            refl,
        k,
      )

  -- With a transfer format of 2 or more and no request to exit, the loop of
  -- PollingLidarPointCloudData on a queue that is not empty never ends, whatever the fuel: nothing
  -- is taken out of the queue.
  pub polling_loop-stuck :
      (c : Settings) (index : ℕ) (lidar : LidarDevice R) (q : LidarDataQueue R)
      → 2 ≤ c.transfer_format
      → queue_is_empty q ≡ false
      → (fuel : ℕ) → polling_loop to_uint8 to_double c false index lidar fuel q ≡ none
  unfolding polling_loop publish_by_format publish_pcl_msg
  polling_loop-stuck c index lidar q l busy zero = refl
  polling_loop-stuck c index lidar q l busy (suc fuel) =
      let not_cloud : (c.transfer_format == 0) ≡ false = ground (arith, l) in
      let not_custom : (c.transfer_format == 1) ≡ false = ground (arith, l) in
      let rest = polling_loop-stuck c index lidar q l busy fuel in
      elim (Bool-cases (c.transfer_format == 2)) [
        | inl pcl ↦ rw (polling_loop, busy, not_cloud, not_custom, pcl, rest) refl
        | inr unknown ↦ rw (polling_loop, busy, not_cloud, not_custom, unknown, rest) refl
      ]
