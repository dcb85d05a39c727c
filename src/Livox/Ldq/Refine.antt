-- ===== src/Livox/Ldq/Refine.antt =====
-- The packet queue is a bounded queue, also when its counters wrap.
use native.Mathlib.Nat.{mod-mod_of_dvd, mod-lt, pow-le-pow_right}
use Prim.Native.Nat.{◌∣◌}
use firt_version_ws.Prelude.{
  pow-dvd, subst, not, ℕ, suc, ◌+◌, ◌-◌, ◌%◌, ◌^◌, ◌≤◌, ◌<◌, true, false, ◌≡◌, refl, sym, ap, ◌∙◌,
  none, some, List, [], ◌∷◌, ◌++◌, arith, length, get_or, set, if_true, ltb, ◌==◌, add32, sub32,
  and32, and_bits-mask, pow-pos, length-set, get_elem?-eq-get_or, read_first, read_first-length,
  length-replicate, replicate,
}
use firt_version_ws.Livox.Data.{PointXyzlt, PointPacket, StoragePacket}
use firt_version_ws.Livox.Ldq.{
  LidarDataQueue, live, init_queue, queue_is_full, queue_is_empty, queue_pop, queue_pre_pop,
  queue_push_any, queue_pop_update, read_slot, write_slot, queue_size_for, can_delete,
}
use firt_version_ws.Livox.Ldq.Init.{IsSize, queue_size_for-IsSize}
use firt_version_ws.Livox.Ldq.Ring.{window, window-cong, window-set, length-window}

module _ {R : Type 0} where
  -- A packet that has the points that it says.
  abbrev pub IsPacket : StoragePacket R → Type 0
  IsPacket s = length s.points ≡ s.points_num

  abbrev pub AllPackets : List (StoragePacket R) → Type 0
  AllPackets [] = Unit {0}
  AllPackets (s ∷ ss) = IsPacket s × AllPackets ss

  -- The packet that a push stores.
  abbrev pub packet_of : PointPacket R → ℕ → StoragePacket R
  packet_of d base_time = record {
    base_time = base_time;
    points_num = d.points_num;
    points = d.points;
  }

  AllPackets-append :
      (xs ys : List (StoragePacket R)) → AllPackets xs → AllPackets ys → AllPackets (xs ++ ys)
  AllPackets-append [] ys h k = k
  AllPackets-append (x ∷ xs) ys h k = (h.0, AllPackets-append xs ys h.1 k)

module _ {R : Type 0} (blank : StoragePacket R) where
  abbrev pub used : LidarDataQueue R → ℕ
  used q = sub32 q.wr_idx q.rd_idx

  -- A queue that InitQueue has set up, and the packets that it holds, the oldest first.
  pub record Holds (q : LidarDataQueue R) (packets : List (StoragePacket R)) : Type 0 where
    pub slots : List (StoragePacket R)
    pub storage : q.storage_packet ≡ live slots
    pub is_size : IsSize q.size
    pub mask : q.mask ≡ q.size - 1
    pub room : length slots ≡ q.size
    pub read_in : q.rd_idx < 2 ^ 32
    pub write_in : q.wr_idx < 2 ^ 32
    pub fits : sub32 q.wr_idx q.rd_idx ≤ q.size
    pub contents : packets ≡ window blank q.size slots q.rd_idx (sub32 q.wr_idx q.rd_idx)
    pub whole : AllPackets packets

  size-dvd : (size : ℕ) → IsSize size → size ∣ 2 ^ 32
  size-dvd size s =
      let whole : s.exponent + (32 - s.exponent) ≡ 32 = omega (arith, s.small) in
      rw s.power (subst (λ n. 2 ^ s.exponent ∣ 2 ^ n) whole (pow-dvd s.exponent (32 - s.exponent)))

  -- InitQueue makes an empty queue.
  pub init_queue-Holds :
      (n : ℕ) (q : LidarDataQueue R)
      → n < 2 ^ 32
      → can_delete q.storage_packet ≡ true
      → (q' : LidarDataQueue R) × (init_queue blank n q ≡ some q')
        × (q'.size ≡ queue_size_for n)
        × Holds q' []
  unfolding init_queue
  init_queue-Holds n q l ok =
      let (s, k) = queue_size_for-IsSize n l in
      (
        _,
        if_true _ _ ok,
        refl,
        record {
          slots = replicate (queue_size_for n) blank;
          storage = refl;
          is_size = s;
          mask = refl;
          room = length-replicate (queue_size_for n) blank;
          read_in = ground arith;
          write_in = ground arith;
          fits = omega arith;
          contents = refl;
          whole = tt;
        },
      )

  module _ (q : LidarDataQueue R) (packets : List (StoragePacket R)) (h : Holds q packets) where
    pub size-le : (0 < q.size) × (q.size ≤ 2 ^ 31)
    size-le =
        let s = h.is_size in
        let top : 2 ^ s.exponent ≤ 2 ^ 31 = pow-le-pow_right (omega arith) s.small in
        rw s.power (pow-pos s.exponent, top)

    -- The mask takes an index into the ring.
    masked : (i : ℕ) → and32 i q.mask ≡ i % q.size
    masked i =
        let s = h.is_size in
        rw (h.mask, s.power) (and_bits-mask 32 s.exponent i (omega (arith, s.small)))

    in_ring : (i : ℕ) → i % q.size < length h.slots
    in_ring i = rw h.room (mod-lt i size-le.0)

    wraps : (i : ℕ) → i % 2 ^ 32 % q.size ≡ i % q.size
    wraps i = mod-mod_of_dvd q.size i (size-dvd q.size h.is_size)

    pub length-used : length packets ≡ used q
    length-used = ap length h.contents ∙ length-window blank q.size h.slots q.rd_idx (used q)

    -- A full queue holds as many packets as its size.
    pub queue_is_full-length : queue_is_full q ≡ not (ltb (length packets) q.size)
    unfolding queue_is_full
    queue_is_full-length = ground (arith, length-used, size-le, h.mask)

    pub queue_is_empty-length : queue_is_empty q ≡ (length packets == 0)
    unfolding queue_is_empty
    queue_is_empty-length = ground (arith, length-used, h.read_in, h.write_in)

    -- The next index to write, from the index to read.
    write_index : q.wr_idx % q.size ≡ (q.rd_idx + used q) % q.size
    write_index =
        let sum : (q.rd_idx + used q) % 2 ^ 32 ≡ q.wr_idx = omega (arith, h.read_in, h.write_in) in
        ap (λ i. i % q.size) (sym sum) ∙ wraps (q.rd_idx + used q)

  read_all : (n : ℕ) (xs : List (PointXyzlt R)) → length xs ≡ n → read_first n xs ≡ some xs
  read_all n xs e = subst (λ k. read_first k xs ≡ some xs) e (read_first-length xs)

  -- A push into a queue that is not full puts the packet at its end.
  pub queue_push_any-Holds :
      (d : PointPacket R) (base_time : ℕ) (q : LidarDataQueue R) (packets : List (StoragePacket R))
      → Holds q packets
      → length packets < q.size
      → length d.points ≡ d.points_num
      → (q' : LidarDataQueue R) × (queue_push_any d base_time q ≡ some q')
        × (q'.size ≡ q.size)
        × Holds q' (packets ++ (packet_of d base_time ∷ []))
  unfolding queue_push_any write_slot
  queue_push_any-Holds d base_time q packets h space whole =
      let at = q.wr_idx % q.size in
      let inside = in_ring q packets h q.wr_idx in
      let (low, high) = size-le q packets h in
      let count : used q < q.size = subst (λ n. n < q.size) (length-used q packets h) space in
      let written = set h.slots at (packet_of d base_time) in
      let grown : sub32 (add32 q.wr_idx 1) q.rd_idx ≡ suc (used q) =
        omega (arith, h.read_in, h.write_in, count, high) in
      (
        record q { storage_packet = live written; wr_idx = add32 q.wr_idx 1 },
        rw
            (
              read_all d.points_num d.points whole,
              h.storage,
              masked q packets h q.wr_idx,
              get_elem?-eq-get_or h.slots at blank inside,
            )
            refl,
        refl,
        record {
          slots = written;
          storage = refl;
          is_size = h.is_size;
          mask = h.mask;
          room = length-set h.slots at (packet_of d base_time) ∙ h.room;
          read_in = h.read_in;
          write_in = omega arith;
          fits = omega (arith, grown, count);
          contents =
              ap (λ xs. xs ++ (packet_of d base_time ∷ [])) h.contents
              ∙ sym (
                  window-set blank q.size h.slots (packet_of d base_time) q.rd_idx (used q) h.room
                    count)
              ∙ ap
                  (λ i.
                    window blank q.size (set h.slots i (packet_of d base_time)) q.rd_idx
                      (suc (used q)))
                  (sym (write_index q packets h))
              ∙ ap (λ n. window blank q.size written q.rd_idx n) (sym grown);
          whole = AllPackets-append packets (packet_of d base_time ∷ []) h.whole (whole, tt);
        },
      )

  abbrev head_or : StoragePacket R → List (StoragePacket R) → StoragePacket R
  head_or d [] = d
  head_or d (x ∷ xs) = x

  abbrev tail : List (StoragePacket R) → List (StoragePacket R)
  tail [] = []
  tail (x ∷ xs) = xs

  -- A pop from a queue that holds a packet returns the oldest.
  pub queue_pop-Holds :
      (q : LidarDataQueue R) (p : StoragePacket R) (packets : List (StoragePacket R))
      → Holds q (p ∷ packets)
      → (q' : LidarDataQueue R) × (queue_pop q ≡ some (some p, q'))
        × (q'.size ≡ q.size)
        × Holds q' packets
  unfolding queue_pop queue_pre_pop queue_pop_update read_slot
  queue_pop-Holds q p packets h =
      let at = q.rd_idx % q.size in
      let inside = in_ring q (p ∷ packets) h q.rd_idx in
      let count = length-used q (p ∷ packets) h in
      let (low, high) = size-le q (p ∷ packets) h in
      let one_less : used q ≡ suc (length packets) = sym count in
      let split : p ∷ packets ≡ window blank q.size h.slots q.rd_idx (suc (length packets)) =
        h.contents ∙ ap (window blank q.size h.slots q.rd_idx) one_less in
      let first : get_or h.slots at blank ≡ p = sym (ap (head_or blank) split) in
      let rest : packets ≡ window blank q.size h.slots (q.rd_idx + 1) (length packets) =
        ap tail split in
      let busy : (q.rd_idx == q.wr_idx) ≡ false = ground (arith, one_less, h.read_in, h.write_in) in
      let shrunk : sub32 q.wr_idx (add32 q.rd_idx 1) ≡ length packets =
        omega (arith, h.read_in, h.write_in, one_less, h.fits, high) in
      (
        record q { rd_idx = add32 q.rd_idx 1 },
        rw
            (
              busy,
              h.storage,
              masked q (p ∷ packets) h q.rd_idx,
              get_elem?-eq-get_or h.slots at blank inside,
              first,
              read_all p.points_num p.points h.whole.0,
            )
            refl,
        refl,
        record {
          slots = h.slots;
          storage = h.storage;
          is_size = h.is_size;
          mask = h.mask;
          room = h.room;
          read_in = omega arith;
          write_in = h.write_in;
          fits = omega (arith, shrunk, one_less, h.fits);
          contents =
              rest
              ∙ window-cong blank q.size h.slots (q.rd_idx + 1) (add32 q.rd_idx 1) (length packets)
                  (sym (wraps q (p ∷ packets) h (q.rd_idx + 1)))
              ∙ ap (window blank q.size h.slots (add32 q.rd_idx 1)) (sym shrunk);
          whole = h.whole.1;
        },
      )

  -- A pop from an empty queue does nothing.
  pub queue_pop-empty : (q : LidarDataQueue R) → Holds q [] → queue_pop q ≡ some (none, q)
  unfolding queue_pop queue_pre_pop
  queue_pop-empty q h = rw (queue_is_empty-length q [] h) refl
