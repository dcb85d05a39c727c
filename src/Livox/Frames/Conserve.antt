-- ===== src/Livox/Frames/Conserve.antt =====
-- The points of a packet are published in a frame, or wait in the lidar's handler.
use native.Mathlib.Decide.{ℕ_discrete}
use firt_version_ws.Prelude.{
  ℕ, ◌+◌, ◌-◌, ◌/◌, ◌%◌, ◌^◌, ◌||◌, ◌≤◌, ◌<◌, ◌≡◌, ◌≢◌, subst, refl, sym, ap, ◌∙◌, Bool, true,
  false, not, if◌then◌else◌, none, some, List, [], ◌∷◌, ◌++◌, arith, length, ◌==◌, ltb, ◌>>=◌, inl,
  inr, Bool-cases, Option-cases,
}
use firt_version_ws.Livox.Data.{PointXyzlt, no_points}
use firt_version_ws.Livox.Frames.Handler.{
  LidarPubHandler, get_lidar_base_time, get_recent_time_stamp, get_lidar_point_clouds,
}
use firt_version_ws.Livox.Frames.Timer.{
  PubHandler, PointFrame, find, insert, frame_of, collect, check_timer_sync, check_timer_clock,
  is_frame_end,
}
use firt_version_ws.Livox.Frames.Laws.{
  Ascending, find-insert_self, find-insert_ne, insert-Ascending, points_at, points_in_all,
}
use firt_version_ws.Livox.Frames.Collect.{append-nil, no_points-nil, collect-lem}

module _ {R : Type 0} where
  -- What a step leaves of the points: those in its frames and those that still wait are the old ones.
  pub record Kept (before : PubHandler R) (frames : List (PointFrame R)) (after : PubHandler R)
      : Type 0 where
    pub ascending : Ascending after.lidar_process_handlers
    pub interval : after.publish_interval_ms ≡ before.publish_interval_ms
    -- no lidar is new
    pub ids :
        (id : ℕ)
        → find id before.lidar_process_handlers ≡ none
        → find id after.lidar_process_handlers ≡ none
    pub points :
        (id : ℕ)
        → points_in_all id frames ++ points_at id after.lidar_process_handlers
          ≡ points_at id before.lidar_process_handlers

  points_in_all-frame_of :
      (id other base_time : ℕ) (points : List (PointXyzlt R))
      → points_in_all other (frame_of id base_time points) ≡ (if other == id then points else [])
  points_in_all-frame_of id other base_time points = elim (Bool-cases (no_points points)) [
    | inl empty ↦ elim (Bool-cases (other == id)) [
      | inl same ↦ rw (empty, same) (sym (no_points-nil points empty))
      | inr differ ↦ rw (empty, differ) refl
    ]
    | inr busy ↦ rw busy (
        append-nil ((if other == id then points else []) ++ [])
        ∙ append-nil (if other == id then points else []))
  ]

  is_frame_end-total :
      (s : PubHandler R) (h : LidarPubHandler R)
      → 0 < s.publish_interval_ms
      → (b : Bool) × (is_frame_end s h ≡ some b)
  unfolding is_frame_end
  is_frame_end-total s h pos =
      let divides : (s.publish_interval_ms == 0) ≡ false = ground (arith, pos) in
      let ms = get_recent_time_stamp h / 1000000 in
      elim (Bool-cases (not (ms % s.publish_interval_ms == 0) || (ms == 0))) [
        | inl wait ↦ (false, rw (divides, wait) refl)
        | inr round ↦ (
          not (
              ltb ((get_recent_time_stamp h + 2 ^ 64 - get_lidar_base_time h) % 2 ^ 64)
                s.publish_interval_tolerance),
          rw (divides, round) refl,
        )
      ]

  -- The points that are put into a frame are not in the handler any more.
  moved :
      (other id : ℕ) (h : LidarPubHandler R) (handlers : List (ℕ × LidarPubHandler R))
      → find id handlers ≡ some h
      → (if other == id then h.points_clouds else [])
          ++ points_at other (insert id (record h { points_clouds = [] }) handlers)
        ≡ points_at other handlers
  moved other id h handlers found =
      let h' = record h { points_clouds = [] } in
      elim (ℕ_discrete other id) [
        | yes same ↦
            let e : (other == id) ≡ true = ground (arith, same) in
            rw (e, same, find-insert_self id h' handlers, found) (append-nil h.points_clouds)
        | no differ ↦
            let e : (other == id) ≡ false = ground (arith, differ) in
            rw (e, find-insert_ne id other h' handlers differ) refl
      ]

  clock_first :
      (now : ℕ) (s : PubHandler R)
      → s.last_pub_time ≡ none
      → check_timer_clock now s ≡ some ([], record s { last_pub_time = some now })
  unfolding check_timer_clock
  clock_first now s e = rw e refl

  clock_later :
      (now : ℕ) (s : PubHandler R) (last : ℕ)
      → s.last_pub_time ≡ some last
      → check_timer_clock now s ≡ (
          if ltb now (last + s.publish_interval) then some ([], s) else (do
            collected ← collect 0 s.lidar_process_handlers
            some (
              collected.0 ∷ [],
              record s {
                last_pub_time = some (last + s.publish_interval);
                lidar_process_handlers = collected.1;
              },
            )))
  unfolding check_timer_clock
  clock_later now s last e = rw e refl

  pub check_timer_sync-Kept :
      (id : ℕ) (s : PubHandler R) (h : LidarPubHandler R)
      → 0 < s.publish_interval_ms
      → Ascending s.lidar_process_handlers
      → find id s.lidar_process_handlers ≡ some h
      → (frames : List (PointFrame R)) × (s' : PubHandler R) × (check_timer_sync id s
          ≡ some (frames, s'))
        × Kept s frames s'
  unfolding check_timer_sync get_lidar_point_clouds
  check_timer_sync-Kept id s h pos up found =
      let (now, e) = is_frame_end-total s h pos in
      elim (Bool-cases now) [
        | inr early ↦ (
          [],
          s,
          rw (found, e, early) refl,
          record { ascending = up; interval = refl; ids = λ other e. e; points = λ other. refl },
        )
        | inl end ↦
            let h' = record h { points_clouds = [] } in
            (
              frame_of id (get_lidar_base_time h) h.points_clouds,
              record s { lidar_process_handlers = insert id h' s.lidar_process_handlers },
              rw (found, e, end) refl,
              record {
                ascending = insert-Ascending id h' s.lidar_process_handlers up;
                interval = refl;
                ids = λ other e.
                    let differ : other ≢ id = λ same.
                      ground (
                        arith,
                        found,
                        subst (λ i. find i s.lidar_process_handlers ≡ none) same e,
                      ) in
                    find-insert_ne id other h' s.lidar_process_handlers differ ∙ e;
                points = λ other.
                    ap (λ l. l ++ points_at other (insert id h' s.lidar_process_handlers))
                      (points_in_all-frame_of id other (get_lidar_base_time h) h.points_clouds)
                    ∙ moved other id h s.lidar_process_handlers found;
              },
            )
      ]

  pub check_timer_clock-Kept :
      (now : ℕ) (s : PubHandler R)
      → Ascending s.lidar_process_handlers
      → length s.lidar_process_handlers ≤ 32
      → (frames : List (PointFrame R)) × (s' : PubHandler R) × (check_timer_clock now s
          ≡ some (frames, s'))
        × Kept s frames s'
  unfolding check_timer_clock
  check_timer_clock-Kept now s up room = elim (Option-cases s.last_pub_time) [
    | inl first ↦ (
      [],
      record s { last_pub_time = some now },
      clock_first now s first,
      record { ascending = up; interval = refl; ids = λ id e. e; points = λ id. refl },
    )
    | inr (last, later) ↦ elim (Bool-cases (ltb now (last + s.publish_interval))) [
      | inl early ↦ (
        [],
        s,
        clock_later now s last later ∙ (rw early refl),
        record { ascending = up; interval = refl; ids = λ id e. e; points = λ id. refl },
      )
      | inr due ↦
          let all = collect-lem s.lidar_process_handlers 0 up (omega (arith, room)) in
          (
            all.frame ∷ [],
            record s {
              last_pub_time = some (last + s.publish_interval);
              lidar_process_handlers = all.emptied;
            },
            clock_later now s last later ∙ (rw (due, all.returns) refl),
            record {
              ascending = all.ascending;
              interval = refl;
              ids = all.ids;
              points = λ id.
                  rw (all.none_left id, all.published id)
                    (append-nil (points_at id s.lidar_process_handlers ++ [])
                      ∙ append-nil (points_at id s.lidar_process_handlers));
            },
          )
    ]
  ]
