-- ===== src/Livox/Node/Asleep.antt =====
-- A poll thread that waits at the exit: nothing in the node wakes it.
use mathlib.Core.Option.{some-injective}
use firt_version_ws.Prelude.{ℕ, ◌≡◌, ◌≢◌, refl, sym, ap, ◌∙◌, some}
use firt_version_ws.Livox.Lds.{Lds, semaphore_wait}
use firt_version_ws.Livox.Lddc.{Settings}
use firt_version_ws.Livox.Node.{
  waiting, points_joined, destroyed, DriverNode, request_exit, Step, points_call, points_wake,
  points_ask, imu_call, imu_wake, imu_ask, ask_to_exit, set_value, join_points, join_imu, Run,
  no_step, then_step,
}

-- The point cloud thread is in its Wait, the semaphore is at 0, and the thread is not joined.
pub record IsAsleep {R : Type 0} (n : DriverNode R) : Type 0 where
  pub lds : Lds R
  pub there : n.lds ≡ some lds
  pub count : lds.pcd_semaphore ≡ 0
  pub waits : n.points_thread ≡ waiting
  pub not_joined : (n.destructor ≢ points_joined) × (n.destructor ≢ destroyed)

no_signal : {s count : ℕ} → s ≡ 0 → semaphore_wait s ≢ some count
unfolding semaphore_wait
no_signal z = rw z (λ h. cc)

module _ {R : Type 0} (to_uint8 : R → ℕ) (to_double : ℕ → R) (c : Settings) (fuel : ℕ) where
  zero_count :
      {n : DriverNode R} (a : IsAsleep n) (s : Lds R) → n.lds ≡ some s → s.pcd_semaphore ≡ 0
  zero_count a s there =
      ap (λ l. l.pcd_semaphore) (some-injective _ _ (sym there ∙ a.there)) ∙ a.count

  Step-IsAsleep :
      {n m : DriverNode R} → Step to_uint8 to_double c fuel n m → IsAsleep n → IsAsleep m
  unfolding request_exit
  Step-IsAsleep (points_call n at) a = cc (a.waits)
  Step-IsAsleep (points_wake n s count sent lidars at there wait does) a =
      absurd (no_signal (zero_count a s there) wait)
  Step-IsAsleep (points_ask n at) a = cc (a.waits)
  Step-IsAsleep (imu_call n at) a = record {
    lds = a.lds;
    there = a.there;
    count = a.count;
    waits = a.waits;
    not_joined = a.not_joined;
  }
  Step-IsAsleep (imu_wake n s count sent lidars at there wait does) a = record {
    lds = record s { lidars = lidars; imu_semaphore = count };
    there = refl;
    count = zero_count a s there;
    waits = a.waits;
    not_joined = a.not_joined;
  }
  Step-IsAsleep (imu_ask n at) a = record {
    lds = a.lds;
    there = a.there;
    count = a.count;
    waits = a.waits;
    not_joined = a.not_joined;
  }
  Step-IsAsleep (ask_to_exit n s at there) a = record {
    lds = request_exit s;
    there = refl;
    count = zero_count a s there;
    waits = a.waits;
    not_joined = (λ q. cc, λ q. cc);
  }
  Step-IsAsleep (set_value n at) a = record {
    lds = a.lds;
    there = a.there;
    count = a.count;
    waits = a.waits;
    not_joined = (λ q. cc, λ q. cc);
  }
  Step-IsAsleep (join_points n at done) a = cc (a.waits)
  Step-IsAsleep (join_imu n at done) a = absurd (a.not_joined.0 at)

  -- If the point cloud thread waits for its semaphore at 0 and is not joined yet, no run of the node's
  -- own threads destroys the node, and the thread waits on: RequestExit does not wake it.
  pub exit_hangs :
      (n m : DriverNode R) (k : ℕ)
      → IsAsleep n
      → Run to_uint8 to_double c fuel n k m
      → (m.points_thread ≡ waiting) × (m.destructor ≢ destroyed)
  exit_hangs n m k a run = let a' = Run-IsAsleep run a in (a'.waits, a'.not_joined.1)
    where
      Run-IsAsleep :
          {n m : DriverNode R} {k : ℕ}
          → Run to_uint8 to_double c fuel n k m
          → IsAsleep n
          → IsAsleep m
      Run-IsAsleep no_step a = a
      Run-IsAsleep (then_step run step) a = Step-IsAsleep step (Run-IsAsleep run a)
