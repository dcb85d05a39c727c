-- ===== src/Livox/Lddc/Live.antt =====
-- A packet that is stored for a sampling device is published by the next call that distributes.
use firt_version_ws.Prelude.{
  ℕ, zero, suc, ◌+◌, ◌-◌, ◌≤◌, ◌<◌, true, false, ◌≡◌, refl, sym, ap, subst, ◌∙◌, ◌⊎◌, inl, inr,
  some, List, [], ◌∷◌, ◌++◌, arith, length, get_elem?, set,
}
use native.Mathlib.Nat.{add-zero, zero-add}
use mathlib.Core.Option.{some-injective}
use firt_version_ws.Platform.{Platform}
use firt_version_ws.Livox.Data.{StoragePacket, PointPacket}
use firt_version_ws.Livox.Ldq.Refine.{Holds, packet_of, size-le}
use firt_version_ws.Livox.Lds.{
  LidarDevice, Lds, push_lidar_data, storage_point, storage_point_data, on_lidar_point_cloun_cb,
}
use firt_version_ws.Livox.Cache.{get_index}
use firt_version_ws.Livox.Lds.Laws.{Ready, holding, push_lidar_data-Holds, offer-room}
use firt_version_ws.Livox.Lddc.{
  Settings, Sent, is_sampling, send_messages, distribute_point_cloud_data,
}
use firt_version_ws.Livox.Lddc.Laws.{sent_all, messages_of}
use firt_version_ws.Livox.Lddc.Distribute.{
  AllReady, no_device, device, sent_from, distribute_point_cloud_data-AllReady,
}

-- The second list is a part of the first, without gaps.
pub record Contains {A : Type 0} (whole part : List A) : Type 0 where
  pub before : List A
  pub after : List A
  pub split : whole ≡ before ++ (part ++ after)

append_assoc : {A : Type 0} (xs ys zs : List A) → (xs ++ ys) ++ zs ≡ xs ++ (ys ++ zs)
append_assoc [] ys zs = refl
append_assoc (x ∷ xs) ys zs = ap (λ l. x ∷ l) (append_assoc xs ys zs)

Contains-append : {A : Type 0} (xs ys part : List A) → Contains xs part → Contains (xs ++ ys) part
Contains-append xs ys part h = record {
  before = h.before;
  after = h.after ++ ys;
  split =
      ap (λ l. l ++ ys) h.split
      ∙ append_assoc h.before (part ++ h.after) ys
      ∙ ap (λ l. h.before ++ l) (append_assoc part h.after ys);
}

Contains-later : {A : Type 0} (xs ys part : List A) → Contains ys part → Contains (xs ++ ys) part
Contains-later xs ys part h = record {
  before = xs ++ h.before;
  after = h.after;
  split = ap (λ l. xs ++ l) h.split ∙ sym (append_assoc xs h.before (part ++ h.after));
}

module _ {R : Type 0} (blank : StoragePacket R) where
  AllReady-get :
      (ds : List (LidarDevice R)) (held : List (List (StoragePacket R))) (i : ℕ) {d : LidarDevice R}
      {packets : List (StoragePacket R)}
      → AllReady blank ds held
      → get_elem? ds i ≡ some d
      → get_elem? held i ≡ some packets
      → Ready blank d.packets packets
  AllReady-get [] [] i no_device h k = ground arith
  AllReady-get [] (packets ∷ held) i ready h k = elim ready [ ]
  AllReady-get (d ∷ ds) [] i ready h k = elim ready [ ]
  AllReady-get (d ∷ ds) (packets ∷ held) zero (device ready rest) h k =
      rw (← some-injective _ _ h, ← some-injective _ _ k) ready
  AllReady-get (d ∷ ds) (packets ∷ held) (suc i) (device ready rest) h k =
      AllReady-get ds held i rest h k

  AllReady-set :
      (ds : List (LidarDevice R)) (held : List (List (StoragePacket R))) (i : ℕ) (d : LidarDevice R)
      (packets : List (StoragePacket R))
      → AllReady blank ds held
      → Ready blank d.packets packets
      → AllReady blank (set ds i d) (set held i packets)
  AllReady-set [] [] i d' new_packets no_device new = no_device
  AllReady-set [] (packets ∷ held) i d' new_packets ready new = elim ready [ ]
  AllReady-set (d ∷ ds) [] i d' new_packets ready new = elim ready [ ]
  AllReady-set (d ∷ ds) (packets ∷ held) zero d' new_packets (device ready rest) new =
      device new rest
  AllReady-set (d ∷ ds) (packets ∷ held) (suc i) d' new_packets (device ready rest) new =
      device ready (AllReady-set ds held i d' new_packets rest new)

module _ {R : Type 0} (blank : StoragePacket R) (to_uint8 : R → ℕ) (to_double : ℕ → R) where
  sent_all-last :
      (c : Settings) (d : LidarDevice R) (index : ℕ) (packets : List (StoragePacket R))
      (s : StoragePacket R)
      → Contains
          (sent_all (messages_of blank to_uint8 to_double c d) c index (packets ++ (s ∷ [])))
          (send_messages c index (messages_of blank to_uint8 to_double c d s))
  sent_all-last c d index [] s = record { before = []; after = []; split = refl }
  sent_all-last c d index (packet ∷ packets) s =
      Contains-later (send_messages c index (messages_of blank to_uint8 to_double c d packet)) _ _
        (sent_all-last c d index packets s)

  -- A device that is sampling is not passed over.
  sent_from-set :
      (c : Settings) (start : ℕ) (ds : List (LidarDevice R)) (held : List (List (StoragePacket R)))
      (i : ℕ) (d : LidarDevice R) (packets : List (StoragePacket R)) (part : Sent R)
      {old : LidarDevice R} {old_packets : List (StoragePacket R)}
      → get_elem? ds i ≡ some old
      → get_elem? held i ≡ some old_packets
      → is_sampling d.connect_state ≡ true
      → Contains (sent_all (messages_of blank to_uint8 to_double c d) c (start + i) packets) part
      → Contains (sent_from blank to_uint8 to_double c start (set ds i d) (set held i packets)) part
  sent_from-set c start [] held i d packets part h k on found = ground arith
  sent_from-set c start (x ∷ ds) [] i d packets part h k on found = ground arith
  sent_from-set c start (x ∷ ds) (ps ∷ held) zero d packets part h k on found =
      rw on (Contains-append _ _ part (rw add-zero at found))
  sent_from-set c start (x ∷ ds) (ps ∷ held) (suc i) d packets part h k on found =
      let moved : start + suc i ≡ start + 1 + i = omega arith in
      Contains-later _ _ part
        (sent_from-set c (start + 1) ds held i d packets part h k on (rw moved at found))

room_left :
    {A : Type 0} (xs : List A) {before now : ℕ}
    → (xs ≡ []) ⊎ (length xs < before)
    → (now ≡ before) ⊎ (xs ≡ [])
    → 0 < now
    → length xs < now
room_left xs (inl none_held) kept pos = rw none_held pos
room_left xs (inr room) (inl same) pos = rw same room
room_left xs (inr room) (inr none_held) pos = rw none_held pos

module _ {R : Type 0} ⦃p : Platform R⦄ (cast : R → ℕ) (blank : StoragePacket R) (to_uint8 : R → ℕ)
    (to_double : ℕ → R) where
  -- The same from PushLidarData on.
  push_lidar_data-distribute :
      (c : Settings) (fuel index base_time : ℕ) (d : PointPacket R) (s : Lds R)
      (lidar : LidarDevice R) (held : List (List (StoragePacket R)))
      (packets : List (StoragePacket R))
      → c.transfer_format < 2
      → 2 ≤ fuel
      → s.request_exit ≡ false
      → AllReady blank s.lidars held
      → get_elem? s.lidars index ≡ some lidar
      → get_elem? held index ≡ some packets
      → is_sampling lidar.connect_state ≡ true
      → (packets ≡ []) ⊎ (length packets < lidar.packets.size)
      → length d.points ≡ d.points_num
      → (s1 : Lds R) × (sent : Sent R) × (s2 : Lds R) × (push_lidar_data cast blank d index
            base_time s
          ≡ some s1)
        × (distribute_point_cloud_data to_uint8 to_double c fuel s1 ≡ some (some (sent, s2)))
        × Contains sent (
            send_messages c index
              (messages_of blank to_uint8 to_double c lidar (packet_of d base_time)))
  unfolding firt_version_ws.Livox.Messages.init_custom_msg
  push_lidar_data-distribute c fuel index base_time d s lidar held packets l m go ready found queued
        on room whole =
      let old = AllReady-get blank s.lidars held index ready found queued in
      let (s1, q, e, signalled, exit, devices, kept, holds) =
        push_lidar_data-Holds cast blank d index base_time s lidar packets found old whole in
      let lidar' = record lidar { packets = q } in
      let full = packets ++ (packet_of d base_time ∷ []) in
      let fits : length packets < q.size =
        room_left packets room kept (size-le blank q _ holds).0 in
      let stored : Holds blank q full =
        subst (Holds blank q) (offer-room q.size (packet_of d base_time) packets fits) holds in
      let all : AllReady blank s1.lidars (set held index full) =
        subst (λ ds. AllReady blank ds (set held index full)) (sym devices)
          (AllReady-set blank s.lidars held index lidar' full ready (holding stored)) in
      let (s2, f, rest, left) =
        distribute_point_cloud_data-AllReady blank to_uint8 to_double c fuel (s1.pcd_semaphore - 1)
          s1 (set held index full) l m (exit ∙ go) (omega (arith, signalled)) all in
      (
        s1,
        sent_from blank to_uint8 to_double c 0 s1.lidars (set held index full),
        s2,
        e,
        f,
        rw devices (
            sent_from-set blank to_uint8 to_double c 0 s.lidars held index lidar' full _ found
              queued on
              (rw zero-add (
                sent_all-last blank to_uint8 to_double c lidar' index packets
                  (packet_of d base_time)))),
      )

  -- The frame of a packet that has the points it says, of a lidar whose device samples and has room
  -- in its queue, or an empty queue, is stored, and the next call of DistributePointCloudData does
  -- not wait, ends, and sends the messages for that packet on the device's topic, next to each
  -- other; with one of the two supported formats, no request to exit, queues that are in order
  -- (AllReady) and two rounds of fuel.
  pub frame-distribute :
      (c : Settings) (fuel index base_time : ℕ) (d : PointPacket R) (s : Lds R)
      (lidar : LidarDevice R) (held : List (List (StoragePacket R)))
      (packets : List (StoragePacket R))
      → c.transfer_format < 2
      → 2 ≤ fuel
      → s.request_exit ≡ false
      → AllReady blank s.lidars held
      → get_index d.lidar_type d.handle s.cache_index ≡ some index
      → get_elem? s.lidars index ≡ some lidar
      → get_elem? held index ≡ some packets
      → is_sampling lidar.connect_state ≡ true
      → (packets ≡ []) ⊎ (length packets < lidar.packets.size)
      → length d.points ≡ d.points_num
      → (s1 : Lds R) × (sent : Sent R) × (s2 : Lds R) × (on_lidar_point_cloun_cb cast blank
            ((base_time, d) ∷ [])
            s
          ≡ some s1)
        × (distribute_point_cloud_data to_uint8 to_double c fuel s1 ≡ some (some (sent, s2)))
        × Contains sent (
            send_messages c index
              (messages_of blank to_uint8 to_double c lidar (packet_of d base_time)))
  unfolding on_lidar_point_cloun_cb storage_point_data storage_point
  frame-distribute c fuel index base_time d s lidar held packets l m go ready known found queued on
        room whole =
      let (s1, sent, s2, e, f, part) =
        push_lidar_data-distribute c fuel index base_time d s lidar held packets l m go ready found
          queued on room whole in
      (s1, sent, s2, rw (storage_point, known, e) refl, f, part)
