-- ===== src/FastLio/Split.antt =====
-- sync_packages() cuts the IMU readings at the scan's end.
use firt_version_ws.Prelude.{
  Bool, is_empty, ℕ, true, false, ◌||◌, ◌≡◌, refl, sym, ap, subst, ◌∙◌, inl, inr, Bool-cases, List,
  [], ◌∷◌, ◌++◌, All, if_true, if_false, last_or,
}
use firt_version_ws.Platform.{Platform, lt, dec, ◌⊘◌, ◌⊗◌}
use firt_version_ws.FastLio.Sync.{
  ImuReading, Scan, Buffers, tail, front_or, front_stamp, push_scan, take_imu, take_measures,
  sync_packages,
}

pub not_empty :
    {A : Type 0} (items : List A) (other : Bool)
    → (is_empty items || other) ≡ false
    → is_empty items ≡ false
not_empty [] other h = cc
not_empty (a ∷ rest) other h = refl

-- What is used of `<` on `double`s that are numbers.
pub record IsOrder (R : Type 0) ⦃p : Platform R⦄ : Type 0 where
  pub asymmetric : (a b : R) → lt a b ≡ true → lt b a ≡ false
  pub between : (a b c : R) → lt a b ≡ false → lt b c ≡ false → lt a c ≡ false

module _ {R : Type 0} ⦃p : Platform R⦄ where
  abbrev pub NotBefore : R → List (ImuReading R) → Type 0
  NotBefore t = All (λ m. lt m.stamp t ≡ false)

  abbrev pub NotAfter : R → List (ImuReading R) → Type 0
  NotAfter t = All (λ m. lt t m.stamp ≡ false)

  -- The readings' stamps do not fall.
  abbrev pub Ascending : List (ImuReading R) → Type 0
  Ascending [] = Unit {0}
  Ascending (m ∷ ms) = NotBefore m.stamp ms × Ascending ms

  -- What a successful call has done to the readings and the scans.
  pub record Splits (b b' : Buffers R) : Type 0 where
    pub whole : b'.meas.imu ++ b'.imu_buffer ≡ b.imu_buffer
    pub before : NotAfter b'.lidar_end_time b'.meas.imu
    pub after : NotBefore b'.lidar_end_time b'.imu_buffer
    pub covered : lt b'.last_timestamp_imu b'.lidar_end_time ≡ false
    pub scans : b'.lidar_buffer ≡ tail b.lidar_buffer
    pub times : b'.time_buffer ≡ tail b.time_buffer
    pub next : b'.lidar_pushed ≡ false

-- A scan is taken up: the buffers stay.
pub record Pushed {R : Type 0} (lidar : Scan R) (beg_time : R) (b b' : Buffers R) : Type 0 where
  pub imu : b'.imu_buffer ≡ b.imu_buffer
  pub scans : b'.lidar_buffer ≡ b.lidar_buffer
  pub times : b'.time_buffer ≡ b.time_buffer
  pub group_scan : b'.meas.lidar ≡ lidar
  pub group_time : b'.meas.lidar_beg_time ≡ beg_time

module _ {R : Type 0} ⦃p : Platform R⦄ (to_double : ℕ → R) where
  pub push_scan-Pushed :
      (lidar : Scan R) (beg_time : R) (b : Buffers R)
      → Pushed lidar beg_time b (push_scan to_double lidar beg_time b)
  unfolding push_scan
  push_scan-Pushed [] beg_time b = record {
    imu = refl;
    scans = refl;
    times = refl;
    group_scan = refl;
    group_time = refl;
  }
  push_scan-Pushed (q ∷ []) beg_time b = record {
    imu = refl;
    scans = refl;
    times = refl;
    group_scan = refl;
    group_time = refl;
  }
  push_scan-Pushed (q ∷ r ∷ points) beg_time b =
      let last = last_or r points ⊘ dec 1000 0 in
      elim (Bool-cases (lt last (dec 5 1 ⊗ b.lidar_mean_scantime))) [
        | inl short ↦ rw short (record {
          imu = refl;
          scans = refl;
          times = refl;
          group_scan = refl;
          group_time = refl;
        })
        | inr long ↦ rw long (record {
          imu = refl;
          scans = refl;
          times = refl;
          group_scan = refl;
          group_time = refl;
        })
      ]

module _ {R : Type 0} ⦃p : Platform R⦄ (o : IsOrder R) where
  lt_irrefl : (a : R) → lt a a ≡ false
  lt_irrefl a = elim (Bool-cases (lt a a)) [ inl h ↦ o.asymmetric a a h | inr h ↦ h ]

  NotBefore-trans :
      (a b : R) (ms : List (ImuReading R)) → NotBefore a ms → lt a b ≡ false → NotBefore b ms
  NotBefore-trans a b [] h l = tt
  NotBefore-trans a b (m ∷ ms) h l = (o.between m.stamp a b h.0 l, NotBefore-trans a b ms h.1 l)

  take_imu-lem :
      (imu_time end_time : R) (ms : List (ImuReading R))
      → Ascending ms
      → NotBefore imu_time ms
      → let taken = take_imu imu_time end_time ms in
        (taken.0 ++ taken.1 ≡ ms) × NotAfter end_time taken.0 × NotBefore end_time taken.1
  unfolding take_imu
  take_imu-lem t e [] up low = (refl, tt, tt)
  take_imu-lem t e (m ∷ ms) up low = elim (Bool-cases (lt t e)) [
    | inr past ↦ rw past (refl, tt, NotBefore-trans t e (m ∷ ms) low past)
    | inl within ↦ elim (Bool-cases (lt e m.stamp)) [
      | inl late ↦
          let not_early = o.asymmetric e m.stamp late in
          rw (within, late) (refl, tt, (not_early, NotBefore-trans m.stamp e ms up.0 not_early))
      | inr early ↦
          let (whole, before, after) = take_imu-lem m.stamp e ms up.1 up.0 in
          rw (within, early) (ap (λ l. m ∷ l) whole, (early, before), after)
    ]
  ]

  front-NotBefore :
      (otherwise : R) (ms : List (ImuReading R))
      → Ascending ms
      → NotBefore (front_stamp otherwise ms) ms
  front-NotBefore otherwise [] up = tt
  front-NotBefore otherwise (m ∷ ms) up = (lt_irrefl m.stamp, up.0)

  take_measures-Splits :
      (b b' : Buffers R) → take_measures b ≡ (true, b') → Ascending b.imu_buffer → Splits b b'
  unfolding take_measures
  take_measures-Splits b b' h up = elim (Bool-cases (lt b.last_timestamp_imu b.lidar_end_time)) [
    | inl waits ↦ cc (ap (λ r. r.0) (sym (if_true _ _ waits) ∙ h))
    | inr covered ↦
        let t = front_stamp b.last_timestamp_imu b.imu_buffer in
        let (whole, before, after) =
          take_imu-lem t b.lidar_end_time b.imu_buffer up
            (front-NotBefore b.last_timestamp_imu b.imu_buffer up) in
        rw (← ap (λ r. r.1) (sym (if_false _ _ covered) ∙ h)) (record {
          whole = whole;
          before = before;
          after = after;
          covered = covered;
          scans = refl;
          times = refl;
          next = refl;
        })
  ]

  -- A call of sync_packages() that succeeds, the buffered readings' stamps not falling and `<` an
  -- order: the readings of the group and those left are the buffered ones in order; the group's are
  -- not after the scan's end, those left not before it, and the last one received is not before it
  -- either. The scan and its time are taken off, and the next call takes up another scan.
  pub sync_packages-Splits :
      (to_double : ℕ → R) (b b' : Buffers R)
      → sync_packages to_double b ≡ (true, b')
      → Ascending b.imu_buffer
      → Splits b b'
  unfolding sync_packages
  sync_packages-Splits to_double b b' h up =
      elim (Bool-cases (is_empty b.lidar_buffer || is_empty b.imu_buffer)) [
        | inl empty ↦ cc (ap (λ r. r.0) (sym (if_true _ _ empty) ∙ h))
        | inr ready ↦ elim (Bool-cases b.lidar_pushed) [
          | inl pushed ↦
              take_measures-Splits b b' (sym (if_false _ _ ready ∙ if_true _ _ pushed) ∙ h) up
          | inr fresh ↦
              let scan = front_or [] b.lidar_buffer in
              let time = front_or b.lidar_end_time b.time_buffer in
              let k = push_scan-Pushed to_double scan time b in
              let s =
                take_measures-Splits (push_scan to_double scan time b) b'
                  (sym (if_false _ _ ready ∙ if_false _ _ fresh) ∙ h)
                  (subst Ascending (sym k.imu) up) in
              record {
                whole = s.whole ∙ k.imu;
                before = s.before;
                after = s.after;
                covered = s.covered;
                scans = s.scans ∙ ap tail k.scans;
                times = s.times ∙ ap tail k.times;
                next = s.next;
              }
        ]
      ]
