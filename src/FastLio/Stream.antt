-- ===== src/FastLio/Stream.antt =====
-- The scans over a run: each with its own time, until a message's stamp goes back.
use mathlib.Core.List.{append_assoc, append-nil}
use firt_version_ws.Prelude.{
  is_empty, ℕ, Bool, true, false, ◌||◌, if◌then◌else◌, ◌≡◌, refl, sym, ap, subst, ◌∙◌, inl, inr,
  Bool-cases, List, [], ◌∷◌, ◌++◌, arith, length, length-append, if_true, if_false,
}
use firt_version_ws.Platform.{Platform, lt}
use firt_version_ws.FastLio.Sync.{
  MeasureGroup, Scan, Buffers, SyncEvent, standard_scan, livox_scan, imu_message, timer, tail,
  front_or, loops_back, standard_pcl_cbk, livox_pcl_cbk, push_scan, take_measures, sync_packages,
  sync_step, sync_run,
}
use firt_version_ws.FastLio.Split.{not_empty, push_scan-Pushed}

module _ {R : Type 0} where
  -- The scans that wait, with the times that they will get.
  abbrev pub pair_up : List R → List (Scan R) → List (R × Scan R)
  pair_up (t ∷ times) (scan ∷ scans) = (t, scan) ∷ pair_up times scans
  pair_up _ _ = []

  abbrev pub waiting : Buffers R → List (R × Scan R)
  waiting b = pair_up b.time_buffer b.lidar_buffer

  -- The scan of a group with its time.
  abbrev pub scans_of : List (MeasureGroup R) → List (R × Scan R)
  scans_of [] = []
  scans_of (g ∷ groups) = (g.lidar_beg_time, g.lidar) ∷ scans_of groups

  -- The scans that arrive.
  abbrev pub arrived : List (SyncEvent R) → List (R × Scan R)
  arrived [] = []
  arrived (standard_scan t scan ∷ events) = (t, scan) ∷ arrived events
  arrived (livox_scan t scan ∷ events) = (t, scan) ∷ arrived events
  arrived (_ ∷ events) = arrived events

  -- As many times as scans, and a scan that is taken up is the first one.
  pub record IsAligned (b : Buffers R) : Type 0 where
    pub as_many : length b.time_buffer ≡ length b.lidar_buffer
    pub taken_up :
        b.lidar_pushed ≡ true
        → (rest : List (R × Scan R)) × (waiting b ≡ (b.meas.lidar_beg_time, b.meas.lidar) ∷ rest)

  pair_up-append :
      (times : List R) (scans : List (Scan R)) (t : R) (scan : Scan R)
      → length times ≡ length scans
      → pair_up (times ++ (t ∷ [])) (scans ++ (scan ∷ [])) ≡ pair_up times scans ++ ((t, scan) ∷ [])
  pair_up-append [] [] t scan e = refl
  pair_up-append [] (s ∷ scans) t scan e = absurd (omega arith)
  pair_up-append (u ∷ times) [] t scan e = absurd (omega arith)
  pair_up-append (u ∷ times) (s ∷ scans) t scan e =
      ap (λ l. (u, s) ∷ l) (pair_up-append times scans t scan (omega arith))

  scans_of-append :
      (gs hs : List (MeasureGroup R)) → scans_of (gs ++ hs) ≡ scans_of gs ++ scans_of hs
  scans_of-append [] hs = refl
  scans_of-append (g ∷ gs) hs = ap (λ l. (g.lidar_beg_time, g.lidar) ∷ l) (scans_of-append gs hs)

  arrived-cons :
      (e : SyncEvent R) (events : List (SyncEvent R))
      → arrived (e ∷ []) ++ arrived events ≡ arrived (e ∷ events)
  arrived-cons (standard_scan t scan) events = refl
  arrived-cons (livox_scan t scan) events = refl
  arrived-cons (imu_message m) events = refl
  arrived-cons timer events = refl

  pair_up-tail :
      (times : List R) (scans : List (Scan R)) (first : R × Scan R) (rest : List (R × Scan R))
      → pair_up times scans ≡ first ∷ rest
      → pair_up (tail times) (tail scans) ≡ rest
  pair_up-tail [] scans first rest e = cc
  pair_up-tail (t ∷ times) [] first rest e = cc
  pair_up-tail (t ∷ times) (s ∷ scans) first rest e = cc

  length-tail :
      (times : List R) (scans : List (Scan R))
      → length times ≡ length scans
      → length (tail times) ≡ length (tail scans)
  length-tail [] [] e = refl
  length-tail [] (s ∷ scans) e = absurd (omega arith)
  length-tail (t ∷ times) [] e = absurd (omega arith)
  length-tail (t ∷ times) (s ∷ scans) e = omega arith

  pair_up-front :
      (otherwise : R) (times : List R) (scans : List (Scan R))
      → length times ≡ length scans
      → is_empty scans ≡ false
      → pair_up times scans
        ≡ (front_or otherwise times, front_or [] scans) ∷ pair_up (tail times) (tail scans)
  pair_up-front otherwise times [] e full = cc
  pair_up-front otherwise [] (s ∷ scans) e full = absurd (omega arith)
  pair_up-front otherwise (t ∷ times) (s ∷ scans) e full = refl

  -- A scan that arrives is the last that waits.
  module _ (b b' : Buffers R) (t : R) (scan : Scan R)
      (times : b'.time_buffer ≡ b.time_buffer ++ (t ∷ []))
      (scans : b'.lidar_buffer ≡ b.lidar_buffer ++ (scan ∷ []))
      (pushed : b'.lidar_pushed ≡ b.lidar_pushed) (group : b'.meas ≡ b.meas) (a : IsAligned b) where
    waiting-arrived : waiting b' ≡ waiting b ++ ((t, scan) ∷ [])
    waiting-arrived =
        ap (λ l. pair_up l b'.lidar_buffer) times
        ∙ ap (λ l. pair_up (b.time_buffer ++ (t ∷ [])) l) scans
        ∙ pair_up-append b.time_buffer b.lidar_buffer t scan a.as_many

    arrived-IsAligned : IsAligned b'
    arrived-IsAligned = record {
      as_many = omega (
        arith,
        ap (λ l. length l) times,
        ap (λ l. length l) scans,
        length-append b.time_buffer (t ∷ []),
        length-append b.lidar_buffer (scan ∷ []),
        a.as_many,
      );
      taken_up = λ now.
          let (rest, e) = a.taken_up (sym pushed ∙ now) in
          (
            rest ++ ((t, scan) ∷ []),
            waiting-arrived
                ∙ ap (λ l. l ++ ((t, scan) ∷ [])) e
                ∙ ap (λ g. (g.lidar_beg_time, g.lidar) ∷ (rest ++ ((t, scan) ∷ []))) (sym group),
          );
    }

-- What an event does to the scans: those of its groups and those that wait are the ones that waited
-- before and those that came.
pub record Moves {R : Type 0} (b : Buffers R) (came : List (R × Scan R))
    (r : List (MeasureGroup R) × Buffers R) : Type 0 where
  pub aligned : IsAligned r.1
  pub kept : scans_of r.0 ++ waiting r.1 ≡ waiting b ++ came

-- What a call of sync_packages() does to the scans.
abbrev Outcome : {R : Type 0} → Buffers R → Bool × Buffers R → Type 0
Outcome b r =
    IsAligned r.1 × (scans_of (if r.0 then r.1.meas ∷ [] else []) ++ waiting r.1 ≡ waiting b)

module _ {R : Type 0} ⦃p : Platform R⦄ where
  -- The timer's call, once a scan is taken up.
  take_measures-Moves :
      (b : Buffers R) (rest : List (R × Scan R))
      → length b.time_buffer ≡ length b.lidar_buffer
      → waiting b ≡ (b.meas.lidar_beg_time, b.meas.lidar) ∷ rest
      → Outcome b (take_measures b)
  unfolding take_measures
  take_measures-Moves b rest as_many e =
      elim (Bool-cases (lt b.last_timestamp_imu b.lidar_end_time)) [
        | inl waits ↦ rw waits (record { as_many = as_many; taken_up = λ now. (rest, e) }, refl)
        | inr covered ↦ rw covered (
          record {
            as_many = length-tail b.time_buffer b.lidar_buffer as_many;
            taken_up = λ now. cc;
          },
          ap (λ l. (b.meas.lidar_beg_time, b.meas.lidar) ∷ l)
                (pair_up-tail b.time_buffer b.lidar_buffer _ rest e)
              ∙ sym e,
        )
      ]

module _ {R : Type 0} ⦃p : Platform R⦄ (as_stamp as_nanoseconds : R → R) (to_double : ℕ → R) where
  -- No message's stamp goes back.
  abbrev pub NeverBack : List (SyncEvent R) → Buffers R → Type 0
  NeverBack [] b = Unit {0}
  NeverBack (standard_scan t scan ∷ events) b =
      (loops_back t b ≡ false)
      × NeverBack events (sync_step as_stamp as_nanoseconds to_double (standard_scan t scan) b).1
  NeverBack (livox_scan t scan ∷ events) b =
      (loops_back t b ≡ false)
      × NeverBack events (sync_step as_stamp as_nanoseconds to_double (livox_scan t scan) b).1
  NeverBack (e ∷ events) b = NeverBack events (sync_step as_stamp as_nanoseconds to_double e b).1

  sync_packages-Outcome : (b : Buffers R) → IsAligned b → Outcome b (sync_packages to_double b)
  unfolding sync_packages
  sync_packages-Outcome b a = elim (Bool-cases (is_empty b.lidar_buffer || is_empty b.imu_buffer)) [
    | inl empty ↦ subst (Outcome b) (sym (if_true _ _ empty)) (a, refl)
    | inr ready ↦ elim (Bool-cases b.lidar_pushed) [
      | inl pushed ↦
          let (rest, e) = a.taken_up pushed in
          subst (Outcome b) (sym (if_false _ _ ready ∙ if_true _ _ pushed))
            (take_measures-Moves b rest a.as_many e)
      | inr fresh ↦
          let scan = front_or [] b.lidar_buffer in
          let time = front_or b.lidar_end_time b.time_buffer in
          let b1 = push_scan to_double scan time b in
          let k = push_scan-Pushed to_double scan time b in
          let same : waiting b1 ≡ waiting b =
            ap (λ l. pair_up l b1.lidar_buffer) k.times ∙ ap (pair_up b.time_buffer) k.scans in
          let first =
            pair_up-front b.lidar_end_time b.time_buffer b.lidar_buffer a.as_many
              (not_empty b.lidar_buffer (is_empty b.imu_buffer) ready) in
          let group : (time, scan) ≡ (b1.meas.lidar_beg_time, b1.meas.lidar) =
            ap (λ t. (t, scan)) (sym k.group_time)
            ∙ ap (λ c. (b1.meas.lidar_beg_time, c)) (sym k.group_scan) in
          let rest = pair_up (tail b.time_buffer) (tail b.lidar_buffer) in
          let (aligned, kept) =
            take_measures-Moves b1 rest
              (ap (λ l. length l) k.times ∙ a.as_many ∙ ap (λ l. length l) (sym k.scans))
              (same ∙ first ∙ ap (λ f. f ∷ rest) group) in
          subst (Outcome b) (sym (if_false _ _ ready ∙ if_false _ _ fresh)) (aligned, kept ∙ same)
    ]
  ]

  sync_step-Moves :
      (e : SyncEvent R) (events : List (SyncEvent R)) (b : Buffers R)
      → IsAligned b
      → NeverBack (e ∷ events) b
      → Moves b (arrived (e ∷ [])) (sync_step as_stamp as_nanoseconds to_double e b)
        × NeverBack events (sync_step as_stamp as_nanoseconds to_double e b).1
  unfolding sync_step
  sync_step-Moves (standard_scan t scan) events b a never =
      let b' = standard_pcl_cbk t scan b in
      let scans = ap (λ l. l ++ (scan ∷ [])) (if_false [] b.lidar_buffer never.0) in
      (
        record {
          aligned = arrived-IsAligned b b' t scan refl scans refl refl a;
          kept = waiting-arrived b b' t scan refl scans refl refl a;
        },
        never.1,
      )
  sync_step-Moves (livox_scan t scan) events b a never =
      let b' = livox_pcl_cbk t scan b in
      let scans = ap (λ l. l ++ (scan ∷ [])) (if_false [] b.lidar_buffer never.0) in
      (
        record {
          aligned = arrived-IsAligned b b' t scan refl scans refl refl a;
          kept = waiting-arrived b b' t scan refl scans refl refl a;
        },
        never.1,
      )
  sync_step-Moves (imu_message m) events b a never = (
    record {
      aligned = record { as_many = a.as_many; taken_up = a.taken_up };
      kept = sym (append-nil (waiting b));
    },
    never,
  )
  sync_step-Moves timer events b a never =
      let (aligned, kept) = sync_packages-Outcome b a in
      (record { aligned = aligned; kept = kept ∙ sym (append-nil (waiting b)) }, never)

  -- From buffers with as many times as scans, and as long as no scan's stamp goes back: over any
  -- events, the scans of the groups that the timer hands on, each with its begin, and then those that
  -- still wait, are those that waited at first and those that came, each with the stamp of its own
  -- message, in order.
  pub sync_run-Moves :
      (events : List (SyncEvent R)) (b : Buffers R)
      → IsAligned b
      → NeverBack events b
      → Moves b (arrived events) (sync_run as_stamp as_nanoseconds to_double events b)
  unfolding sync_run
  sync_run-Moves [] b a never = record { aligned = a; kept = sym (append-nil (waiting b)) }
  sync_run-Moves (e ∷ events) b a never =
      let r = sync_step as_stamp as_nanoseconds to_double e b in
      let (one, never') = sync_step-Moves e events b a never in
      let later = sync_run-Moves events r.1 one.aligned never' in
      let s = sync_run as_stamp as_nanoseconds to_double events r.1 in
      record {
        aligned = later.aligned;
        kept =
            ap (λ l. l ++ waiting s.1) (scans_of-append r.0 s.0)
            ∙ append_assoc (scans_of r.0) (scans_of s.0) (waiting s.1)
            ∙ ap (λ l. scans_of r.0 ++ l) later.kept
            ∙ sym (append_assoc (scans_of r.0) (waiting r.1) (arrived events))
            ∙ ap (λ l. l ++ arrived events) one.kept
            ∙ append_assoc (waiting b) (arrived (e ∷ [])) (arrived events)
            ∙ ap (λ l. waiting b ++ l) (arrived-cons e events);
      }
