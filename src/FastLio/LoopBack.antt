-- ===== src/FastLio/LoopBack.antt =====
-- A scan whose stamp goes back: the scans are cleared and their times are not.
use firt_version_ws.Prelude.{
  ℕ, ◌+◌, ◌≤◌, ◌<◌, Bool, true, false, ◌||◌, if◌then◌else◌, ◌≡◌, refl, sym, ap, subst, ◌∙◌, inl,
  inr, Bool-cases, List, [], ◌∷◌, ◌++◌, arith, length, length-append, if_true, if_false, is_empty,
}
use firt_version_ws.Platform.{Platform, lt}
use firt_version_ws.FastLio.Sync.{
  Scan, Buffers, SyncEvent, standard_scan, livox_scan, imu_message, timer, tail, front_or,
  loops_back, livox_pcl_cbk, push_scan, take_measures, sync_packages, sync_step, sync_run,
}
use firt_version_ws.FastLio.Split.{not_empty, push_scan-Pushed}

-- At least k times more than scans.
abbrev HasSurplus : {R : Type 0} → ℕ → Buffers R → Type 0
HasSurplus k b = length b.lidar_buffer + k ≤ length b.time_buffer

length-tail_le :
    {A B : Type 0} (k : ℕ) (xs : List A) (ys : List B)
    → is_empty xs ≡ false
    → length xs + k ≤ length ys
    → length (tail xs) + k ≤ length (tail ys)
length-tail_le k [] ys full l = cc
length-tail_le k (x ∷ xs) [] full l = absurd (omega arith)
length-tail_le k (x ∷ xs) (y ∷ ys) full l = omega arith

length-kept :
    {A : Type 0} (k n : ℕ) (cleared : Bool) (xs : List A) (x : A)
    → length xs + k ≤ n
    → length ((if cleared then [] else xs) ++ (x ∷ [])) + k ≤ n + 1
length-kept k n true xs x l = omega arith
length-kept k n false xs x l = omega (arith, length-append xs (x ∷ []))

module _ {R : Type 0} ⦃p : Platform R⦄ where
  take_measures-HasSurplus :
      (k : ℕ) (b : Buffers R)
      → is_empty b.lidar_buffer ≡ false
      → HasSurplus k b
      → HasSurplus k (take_measures b).1
  unfolding take_measures
  take_measures-HasSurplus k b full l =
      elim (Bool-cases (lt b.last_timestamp_imu b.lidar_end_time)) [
        | inl waits ↦ rw waits l
        | inr covered ↦ rw covered (length-tail_le k b.lidar_buffer b.time_buffer full l)
      ]

  take_measures-group :
      (b b' : Buffers R)
      → take_measures b ≡ (true, b')
      → (b'.meas.lidar ≡ b.meas.lidar) × (b'.meas.lidar_beg_time ≡ b.meas.lidar_beg_time)
  unfolding take_measures
  take_measures-group b b' h = elim (Bool-cases (lt b.last_timestamp_imu b.lidar_end_time)) [
    | inl waits ↦ cc (ap (λ r. r.0) (sym (if_true _ _ waits) ∙ h))
    | inr covered ↦ rw (← ap (λ r. r.1) (sym (if_false _ _ covered) ∙ h)) (refl, refl)
  ]

  -- A scan that is taken up and handed on in one call is the first one, with the first time.
  sync_packages-group :
      (to_double : ℕ → R) (b b' : Buffers R)
      → sync_packages to_double b ≡ (true, b')
      → b.lidar_pushed ≡ false
      → (b'.meas.lidar ≡ front_or [] b.lidar_buffer)
        × (b'.meas.lidar_beg_time ≡ front_or b.lidar_end_time b.time_buffer)
  unfolding sync_packages
  sync_packages-group to_double b b' h fresh =
      elim (Bool-cases (is_empty b.lidar_buffer || is_empty b.imu_buffer)) [
        | inl empty ↦ cc (ap (λ r. r.0) (sym (if_true _ _ empty) ∙ h))
        | inr ready ↦
            let scan = front_or [] b.lidar_buffer in
            let time = front_or b.lidar_end_time b.time_buffer in
            let q = push_scan-Pushed to_double scan time b in
            let (lidar, begin) =
              take_measures-group (push_scan to_double scan time b) b'
                (sym (if_false _ _ ready ∙ if_false _ _ fresh) ∙ h) in
            (lidar ∙ q.group_scan, begin ∙ q.group_time)
      ]

module _ {R : Type 0} ⦃p : Platform R⦄ (as_stamp as_nanoseconds : R → R) (to_double : ℕ → R) where
  sync_packages-HasSurplus :
      (k : ℕ) (b : Buffers R) → HasSurplus k b → HasSurplus k (sync_packages to_double b).1
  unfolding sync_packages
  sync_packages-HasSurplus k b l =
      elim (Bool-cases (is_empty b.lidar_buffer || is_empty b.imu_buffer)) [
        | inl empty ↦
            subst {A = Bool × Buffers R} (λ r. HasSurplus k r.1) (sym (if_true _ _ empty)) l
        | inr ready ↦
            let full = not_empty b.lidar_buffer (is_empty b.imu_buffer) ready in
            elim (Bool-cases b.lidar_pushed) [
              | inl pushed ↦
                  subst {A = Bool × Buffers R} (λ r. HasSurplus k r.1)
                    (sym (if_false _ _ ready ∙ if_true _ _ pushed))
                    (take_measures-HasSurplus k b full l)
              | inr fresh ↦
                  let scan = front_or [] b.lidar_buffer in
                  let time = front_or b.lidar_end_time b.time_buffer in
                  let b1 = push_scan to_double scan time b in
                  let q = push_scan-Pushed to_double scan time b in
                  subst {A = Bool × Buffers R} (λ r. HasSurplus k r.1)
                    (sym (if_false _ _ ready ∙ if_false _ _ fresh))
                    (take_measures-HasSurplus k b1 (ap is_empty q.scans ∙ full)
                      (omega (arith, ap (λ s. length s) q.scans, ap (λ t. length t) q.times, l)))
            ]
      ]

  sync_step-HasSurplus :
      (k : ℕ) (e : SyncEvent R) (b : Buffers R)
      → HasSurplus k b
      → HasSurplus k (sync_step as_stamp as_nanoseconds to_double e b).1
  unfolding sync_step
  sync_step-HasSurplus k (standard_scan t scan) b l = omega (
    arith,
    length-kept k (length b.time_buffer) (loops_back t b) b.lidar_buffer scan l,
    length-append b.time_buffer (t ∷ []),
  )
  sync_step-HasSurplus k (livox_scan t scan) b l = omega (
    arith,
    length-kept k (length b.time_buffer) (loops_back t b) b.lidar_buffer scan l,
    length-append b.time_buffer (t ∷ []),
  )
  sync_step-HasSurplus k (imu_message m) b l = l
  sync_step-HasSurplus k timer b l = sync_packages-HasSurplus k b l

  sync_run-HasSurplus :
      (k : ℕ) (events : List (SyncEvent R)) (b : Buffers R)
      → HasSurplus k b
      → HasSurplus k (sync_run as_stamp as_nanoseconds to_double events b).1
  unfolding sync_run
  sync_run-HasSurplus k [] b l = l
  sync_run-HasSurplus k (e ∷ events) b l =
      sync_run-HasSurplus k events (sync_step as_stamp as_nanoseconds to_double e b).1
        (sync_step-HasSurplus k e b l)

  -- If a scan's stamp goes back while times wait, then after the callback, and after any events that
  -- follow, there are more times than scans; and if no scan was taken up and a call of sync_packages()
  -- right after the callback succeeds, it hands on the new scan with the first of the old times.
  pub loop_back :
      (t time : R) (times : List R) (scan : Scan R) (b : Buffers R) (events : List (SyncEvent R))
      → loops_back t b ≡ true
      → b.time_buffer ≡ time ∷ times
      → let b1 = livox_pcl_cbk t scan b in
        let b2 = (sync_run as_stamp as_nanoseconds to_double events b1).1 in
        (length b2.lidar_buffer < length b2.time_buffer)
        × ((b3 : Buffers R)
            → b.lidar_pushed ≡ false
            → sync_packages to_double b1 ≡ (true, b3)
            → (b3.meas.lidar ≡ scan) × (b3.meas.lidar_beg_time ≡ time))
  unfolding livox_pcl_cbk
  loop_back t time times scan b events back old =
      let b1 = livox_pcl_cbk t scan b in
      let alone : b1.lidar_buffer ≡ scan ∷ [] =
        ap (λ l. l ++ (scan ∷ [])) (if_true [] b.lidar_buffer back) in
      let stale : b1.time_buffer ≡ time ∷ (times ++ (t ∷ [])) = ap (λ l. l ++ (t ∷ [])) old in
      let surplus : HasSurplus 1 b1 =
        omega (
          arith,
          ap (λ l. length l) alone,
          ap (λ l. length l) stale,
          length-append times (t ∷ []),
        ) in
      (
        omega (arith, sync_run-HasSurplus 1 events b1 surplus),
        λ b3 fresh h.
            let (lidar, begin) = sync_packages-group to_double b1 b3 h fresh in
            (lidar ∙ ap (front_or []) alone, begin ∙ ap (front_or b1.lidar_end_time) stale),
      )
