-- ===== src/Livox/Frames/Step.antt =====
-- One round of RawDataProcess: it succeeds, and no point of the packet is lost.
use native.Mathlib.Decide.{ℕ_discrete}
use firt_version_ws.Prelude.{
  ℕ, zero, suc, ◌+◌, ◌≤◌, ◌<◌, ◌≡◌, ◌≢◌, refl, sym, ap, ◌∙◌, true, false, if◌then◌else◌, Option,
  none, some, List, [], ◌∷◌, ◌++◌, arith, length, ◌==◌, inl, inr, Bool-cases, if_true, if_false,
}
use firt_version_ws.Platform.{Platform, dec}
use firt_version_ws.Livox.Data.{PointXyzlt, livox_lidar_type}
use firt_version_ws.Livox.Frames.{
  RawData, cartesian_high, cartesian_low, spherical, unknown, RawPacket, Extrinsic, ExtParameter,
  cartesian_point, spherical_point,
}
use firt_version_ws.Livox.Frames.Handler.{
  LidarPubHandler, convert, points_of, point_cloud_process, new_lidar_pub_handler,
  set_lidars_ext_param,
}
use firt_version_ws.Livox.Frames.Timer.{
  PubHandler, PointFrame, find, insert, check_timer, get_lidar_id, process_for, raw_data_process,
  handler_or_new, with_extrinsics,
}
use firt_version_ws.Livox.Frames.Laws.{
  Ascending, find-insert_self, find-insert_ne, insert-Ascending, length-insert, points_at,
  points_in_all, waiting,
}
use firt_version_ws.Livox.Frames.Conserve.{Kept, check_timer_sync-Kept, check_timer_clock-Kept}
use firt_version_ws.Livox.Frames.Collect.{append-nil}

module _ {R : Type 0} where
  -- As many points as the packet says.
  abbrev pub HasPoints : ℕ → RawData R → Type 0
  HasPoints n (cartesian_high raw) = n ≤ length raw
  HasPoints n (cartesian_low raw) = n ≤ length raw
  HasPoints n (spherical raw) = n ≤ length raw
  HasPoints n unknown = n ≡ 0

  convert-total :
      {A : Type 0} (body : ℕ → A → PointXyzlt R) (i n : ℕ) (raw : List A)
      → n ≤ length raw
      → (points : List (PointXyzlt R)) × (convert body i n raw ≡ some points) × (length points ≡ n)
  unfolding convert
  convert-total body i zero raw h = ([], refl, refl)
  convert-total body i (suc n) [] h = absurd (omega arith)
  convert-total body i (suc n) (a ∷ raw) h =
      let (points, e, len) = convert-total body (i + 1) n raw (omega arith) in
      (body i a ∷ points, rw e refl, ap suc len)

  check_timer-Kept :
      (id now : ℕ) (s : PubHandler R) (h : LidarPubHandler R)
      → 0 < s.publish_interval_ms
      → Ascending s.lidar_process_handlers
      → length s.lidar_process_handlers ≤ 32
      → find id s.lidar_process_handlers ≡ some h
      → (frames : List (PointFrame R)) × (s' : PubHandler R) × (check_timer id now s
          ≡ some (frames, s'))
        × Kept s frames s'
  unfolding check_timer
  check_timer-Kept id now s h pos up room found = elim (Bool-cases s.is_timestamp_sync) [
    | inl sync ↦
        let (frames, s', e, k) = check_timer_sync-Kept id s h pos up found in
        (frames, s', if_true _ _ sync ∙ e, k)
    | inr clock ↦
        let (frames, s', e, k) = check_timer_clock-Kept now s up room in
        (frames, s', if_false _ _ clock ∙ e, k)
  ]

  -- What a packet adds to its lidar's points.
  arrived :
      (other id : ℕ) (h : LidarPubHandler R) (handlers : List (ℕ × LidarPubHandler R))
      (points : List (PointXyzlt R))
      → h.points_clouds ≡ points_at id handlers ++ points
      → points_at other (insert id h handlers)
        ≡ points_at other handlers ++ (if other == id then points else [])
  arrived other id h handlers points e = elim (ℕ_discrete other id) [
    | yes same ↦
        let b : (other == id) ≡ true = ground (arith, same) in
        rw (b, same, find-insert_self id h handlers) e
    | no differ ↦
        let b : (other == id) ≡ false = ground (arith, differ) in
        rw (b, find-insert_ne id other h handlers differ)
          (sym (append-nil (points_at other handlers)))
  ]

module _ {R : Type 0} ⦃p : Platform R⦄ where
  points_of-total :
      (e : Extrinsic R) (pkt : RawPacket R) (raw_data : RawData R)
      → pkt.raw_data ≡ raw_data
      → HasPoints pkt.point_num raw_data
      → (points : List (PointXyzlt R)) × (points_of e pkt ≡ some points)
        × (length points ≡ pkt.point_num)
  unfolding points_of
  points_of-total e pkt (cartesian_high raw) d h =
      let (points, f, len) =
        convert-total (cartesian_point (dec 1000 0) e pkt) 0 pkt.point_num raw h in
      (points, rw d f, len)
  points_of-total e pkt (cartesian_low raw) d h =
      let (points, f, len) =
        convert-total (cartesian_point (dec 100 0) e pkt) 0 pkt.point_num raw h in
      (points, rw d f, len)
  points_of-total e pkt (spherical raw) d h =
      let (points, f, len) = convert-total (spherical_point e pkt) 0 pkt.point_num raw h in
      (points, rw d f, len)
  points_of-total e pkt unknown d h = ([], rw d refl, sym h)

  -- The extrinsic parameters do not touch the points.
  with_extrinsics-points :
      (param : Option (ExtParameter R)) (h : LidarPubHandler R)
      → (with_extrinsics param h).points_clouds ≡ h.points_clouds
  unfolding with_extrinsics set_lidars_ext_param
  with_extrinsics-points none h = refl
  with_extrinsics-points (some param) h = elim (Bool-cases h.is_set_extrinsic_params) [
    | inl set ↦ rw set refl
    | inr unset ↦ rw unset refl
  ]

  handler_or_new-points :
      (o : Option (LidarPubHandler R)) → (handler_or_new o).points_clouds ≡ waiting o
  unfolding handler_or_new new_lidar_pub_handler
  handler_or_new-points none = refl
  handler_or_new-points (some h) = refl

  -- What a round does to the points: for each lidar, what is published and what waits afterwards are
  -- what waited before and, for the packet's lidar, its points, in order.
  pub record Round (pkt : RawPacket R) (s : PubHandler R) (frames : List (PointFrame R))
      (s' : PubHandler R) : Type 0 where
    pub points : List (PointXyzlt R)
    pub as_many : length points ≡ pkt.point_num
    pub ascending : Ascending s'.lidar_process_handlers
    pub interval : s'.publish_interval_ms ≡ s.publish_interval_ms
    pub ids :
        (id : ℕ)
        → id ≢ pkt.handle
        → find id s.lidar_process_handlers ≡ none
        → find id s'.lidar_process_handlers ≡ none
    pub kept :
        (id : ℕ)
        → points_in_all id frames ++ points_at id s'.lidar_process_handlers
          ≡ points_at id s.lidar_process_handlers ++ (if id == pkt.handle then points else [])

  -- A round of RawDataProcess for a packet of the served type that has the points it says succeeds,
  -- with fewer than 32 lidars known, in the order of their ids, and a publishing interval of at least
  -- 1 ms.
  pub raw_data_process-Round :
      (pkt : RawPacket R) (now : ℕ) (s : PubHandler R)
      → pkt.lidar_type ≡ livox_lidar_type
      → HasPoints pkt.point_num pkt.raw_data
      → 0 < s.publish_interval_ms
      → Ascending s.lidar_process_handlers
      → length s.lidar_process_handlers < 32
      → (frames : List (PointFrame R)) × (s' : PubHandler R) × (raw_data_process pkt now s
          ≡ some (frames, s'))
        × Round pkt s frames s'
  unfolding raw_data_process process_for get_lidar_id point_cloud_process
  raw_data_process-Round pkt now s served has pos up room =
      let handlers = s.lidar_process_handlers in
      let id = pkt.handle in
      let known : (pkt.lidar_type == 8) ≡ true = ground (arith, served) in
      let same_id : get_lidar_id pkt.lidar_type pkt.handle ≡ id = if_true _ _ known in
      let old = handler_or_new (find id handlers) in
      let h = with_extrinsics (find id s.lidar_extrinsics) old in
      let (points, e, len) = points_of-total h.extrinsic pkt pkt.raw_data refl has in
      let h' = record h { points_clouds = h.points_clouds ++ points } in
      let grown : length (insert id h' handlers) ≤ 32 =
        omega (arith, room, length-insert id h' handlers) in
      let (frames, s', f, k) =
        check_timer-Kept id now (record s { lidar_process_handlers = insert id h' handlers }) h' pos
          (insert-Ascending id h' handlers up) grown (find-insert_self id h' handlers) in
      (
        frames,
        s',
        ap (λ i. process_for i pkt now s) same_id ∙ (rw (process_for, known, e) f),
        record {
          points = points;
          as_many = len;
          ascending = k.ascending;
          interval = k.interval;
          ids = λ other differ none_before.
              k.ids other (find-insert_ne id other h' handlers differ ∙ none_before);
          kept = λ other.
              k.points other
              ∙ arrived other id h' handlers points (
                  ap (λ l. l ++ points)
                    (with_extrinsics-points (find id s.lidar_extrinsics) old
                      ∙ handler_or_new-points (find id handlers)));
        },
      )
