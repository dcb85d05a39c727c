-- ===== src/Livox/Node/Exit.antt =====
-- The node's end: which runs of its threads end, and what keeps the destructor waiting.
use mathlib.Core.Option.{some-injective}
use firt_version_ws.Prelude.{
  ℕ, zero, suc, ◌+◌, ◌≤◌, true, ◌≡◌, ◌≢◌, refl, sym, ap, ◌∙◌, inl, inr, Bool-cases, some, List, [],
  ◌∷◌, arith,
}
use firt_version_ws.Livox.Ldq.{Storage, null, live, freed}
use firt_version_ws.Livox.Lds.{LidarDevice, Lds, semaphore_wait}
use firt_version_ws.Livox.Lddc.{
  Settings, is_sampling, polling_loop, polling_lidar_point_cloud_data, distribute_from,
  distribute_imu_from, polling_lidar_imu_data,
}
use firt_version_ws.Livox.Node.{
  PollThread, calling, waiting, asking, ended, Destructor, running, requested, signalled,
  points_joined, destroyed, DriverNode, call_distribute, ask_exit, Step, points_call, points_wake,
  points_ask, imu_call, imu_wake, imu_ask, ask_to_exit, set_value, join_points, join_imu, Run,
  no_step, then_step,
}

-- After RequestExit the publishing loops end at once.
module _ {R : Type 0} (to_uint8 : R → ℕ) (to_double : ℕ → R) (c : Settings) (fuel : ℕ) where
  polling_exit :
      (index : ℕ) (lidar : LidarDevice R) (storage : Storage _)
      → lidar.packets.storage_packet ≡ storage
      → polling_lidar_point_cloud_data to_uint8 to_double c true (suc fuel) index lidar
        ≡ some ([], lidar)
  unfolding polling_lidar_point_cloud_data polling_loop
  polling_exit index lidar null e = rw e refl
  polling_exit index lidar (live slots) e = rw e refl
  polling_exit index lidar freed e = rw e refl

  distribute_exit :
      (index : ℕ) (lidars : List (LidarDevice R))
      → distribute_from to_uint8 to_double c true (suc fuel) index lidars ≡ some ([], lidars)
  unfolding distribute_from
  distribute_exit index [] = refl
  distribute_exit index (lidar ∷ lidars) = elim (Bool-cases (is_sampling lidar.connect_state)) [
    | inl sampling ↦
        rw
          (
            sampling,
            polling_exit index lidar lidar.packets.storage_packet refl,
            distribute_exit (index + 1) lidars,
          )
          refl
    | inr idle ↦ rw (idle, distribute_exit (index + 1) lidars) refl
  ]

  distribute_imu_exit :
      (index : ℕ) (lidars : List (LidarDevice R))
      → distribute_imu_from c true (suc fuel) index lidars ≡ some ([], lidars)
  unfolding distribute_imu_from polling_lidar_imu_data
  distribute_imu_exit index [] = refl
  distribute_imu_exit index (lidar ∷ lidars) = elim (Bool-cases (is_sampling lidar.connect_state)) [
    | inl sampling ↦ rw (sampling, distribute_imu_exit (index + 1) lidars) refl
    | inr idle ↦ rw (idle, distribute_imu_exit (index + 1) lidars) refl
  ]

-- The steps that a thread has left once the exit is signalled.
abbrev left : PollThread → ℕ
left calling = 2
left waiting = 2
left asking = 1
left ended = 0

abbrev joins_left : Destructor → ℕ
joins_left points_joined = 1
joins_left destroyed = 0
joins_left _ = 2

abbrev pub steps_left : {R : Type 0} → DriverNode R → ℕ
steps_left n = left n.points_thread + left n.imu_thread + joins_left n.destructor

-- The destructor has signalled the exit.
pub record IsExiting {R : Type 0} (n : DriverNode R) : Type 0 where
  pub lds : Lds R
  pub there : n.lds ≡ some lds
  pub requested_exit : lds.request_exit ≡ true
  pub signal : n.exit_signal ≡ true
  pub begun : (n.destructor ≢ running) × (n.destructor ≢ requested)

left-le : (t : PollThread) → left t ≤ 2
left-le calling = omega arith
left-le waiting = omega arith
left-le asking = omega arith
left-le ended = omega arith

joins_left-le : (d : Destructor) → joins_left d ≤ 2
joins_left-le points_joined = omega arith
joins_left-le destroyed = omega arith
joins_left-le _ = omega arith

steps_left-le : {R : Type 0} (n : DriverNode R) → steps_left n ≤ 6
steps_left-le n =
    omega (arith, left-le n.points_thread, left-le n.imu_thread, joins_left-le n.destructor)

signal_taken : {s count : ℕ} → s ≡ suc count → semaphore_wait s ≡ some count
unfolding semaphore_wait
signal_taken z = rw z refl

module _ {R : Type 0} (to_uint8 : R → ℕ) (to_double : ℕ → R) (c : Settings) (fuel : ℕ) where
  called : {n : DriverNode R} → IsExiting n → call_distribute n.lds ≡ asking
  unfolding call_distribute
  called e = rw (e.there, e.requested_exit) refl

  asked : {n : DriverNode R} → IsExiting n → ask_exit n.exit_signal ≡ ended
  unfolding ask_exit
  asked e = rw e.signal refl

  -- A thread moves on, with the Lds as it is.
  with_threads :
      {n : DriverNode R} (points imu : PollThread)
      → IsExiting n
      → IsExiting (record n { points_thread = points; imu_thread = imu })
  with_threads points imu e = record {
    lds = e.lds;
    there = e.there;
    requested_exit = e.requested_exit;
    signal = e.signal;
    begun = e.begun;
  }

  same_exit :
      {n : DriverNode R} (e : IsExiting n) (s : Lds R) → n.lds ≡ some s → s.request_exit ≡ true
  same_exit e s there =
      ap (λ l. l.request_exit) (some-injective _ _ (sym there ∙ e.there)) ∙ e.requested_exit

  -- Once the exit is signalled, every step of the node's threads brings them nearer to their end.
  Step-IsExiting :
      {n m : DriverNode R}
      → Step to_uint8 to_double c fuel n m
      → IsExiting n
      → IsExiting m × (suc (steps_left m) ≤ steps_left n)
  Step-IsExiting (points_call n at) e =
      (with_threads _ _ e, omega (arith, ap left at, ap left (called e)))
  Step-IsExiting (points_wake n s count sent lidars at there wait does) e = (
    record {
      lds = record s { lidars = lidars; pcd_semaphore = count };
      there = refl;
      requested_exit = same_exit e s there;
      signal = e.signal;
      begun = e.begun;
    },
    omega (arith, ap left at),
  )
  Step-IsExiting (points_ask n at) e =
      (with_threads _ _ e, omega (arith, ap left at, ap left (asked e)))
  Step-IsExiting (imu_call n at) e =
      (with_threads _ _ e, omega (arith, ap left at, ap left (called e)))
  Step-IsExiting (imu_wake n s count sent lidars at there wait does) e = (
    record {
      lds = record s { lidars = lidars; imu_semaphore = count };
      there = refl;
      requested_exit = same_exit e s there;
      signal = e.signal;
      begun = e.begun;
    },
    omega (arith, ap left at),
  )
  Step-IsExiting (imu_ask n at) e =
      (with_threads _ _ e, omega (arith, ap left at, ap left (asked e)))
  Step-IsExiting (ask_to_exit n s at there) e = absurd (e.begun.0 at)
  Step-IsExiting (set_value n at) e = absurd (e.begun.1 at)
  Step-IsExiting (join_points n at done) e = (
    record {
      lds = e.lds;
      there = e.there;
      requested_exit = e.requested_exit;
      signal = e.signal;
      begun = (λ q. cc, λ q. cc);
    },
    omega (arith, ap joins_left at),
  )
  Step-IsExiting (join_imu n at done) e = (
    record {
      lds = e.lds;
      there = e.there;
      requested_exit = e.requested_exit;
      signal = e.signal;
      begun = (λ q. cc, λ q. cc);
    },
    omega (arith, ap joins_left at),
  )

  Run-IsExiting :
      {n m : DriverNode R} {k : ℕ}
      → Run to_uint8 to_double c fuel n k m
      → IsExiting n
      → IsExiting m × (k + steps_left m ≤ steps_left n)
  Run-IsExiting no_step e = (e, omega arith)
  Run-IsExiting (then_step run step) e =
      let (e1, l1) = Run-IsExiting run e in
      let (e2, l2) = Step-IsExiting step e1 in (e2, omega arith)

-- What the threads of an exiting node can do: it is destroyed, or a thread waits for a signal that
-- none of them gives, or a step is left.
pub data Outlook {R : Type 0} (to_uint8 : R → ℕ) (to_double : ℕ → R) (c : Settings) (fuel : ℕ)
    (n : DriverNode R) : Type 0 where
  is_destroyed : n.destructor ≡ destroyed → Outlook to_uint8 to_double c fuel n
  points_wait :
      (s : Lds R)
      → n.lds ≡ some s
      → n.points_thread ≡ waiting
      → s.pcd_semaphore ≡ 0
      → Outlook to_uint8 to_double c fuel n
  imu_wait :
      (s : Lds R)
      → n.lds ≡ some s
      → n.imu_thread ≡ waiting
      → s.imu_semaphore ≡ 0
      → Outlook to_uint8 to_double c fuel n
  can_step :
      (m : DriverNode R) → Step to_uint8 to_double c fuel n m → Outlook to_uint8 to_double c fuel n

module _ {R : Type 0} (to_uint8 : R → ℕ) (to_double : ℕ → R) (c : Settings) (fuel : ℕ)
    (n : DriverNode R) (e : IsExiting n) where
  abbrev Here : Type 0
  Here = Outlook to_uint8 to_double c (suc fuel) n

  destructor_outlook :
      (d : Destructor) → n.destructor ≡ d → n.points_thread ≡ ended → n.imu_thread ≡ ended → Here
  destructor_outlook running at p i = absurd (e.begun.0 at)
  destructor_outlook requested at p i = absurd (e.begun.1 at)
  destructor_outlook signalled at p i = can_step _ (join_points n at p)
  destructor_outlook points_joined at p i = can_step _ (join_imu n at i)
  destructor_outlook destroyed at p i = is_destroyed at

  imu_outlook : (t : PollThread) → n.imu_thread ≡ t → n.points_thread ≡ ended → Here
  imu_outlook calling at p = can_step _ (imu_call n at)
  imu_outlook waiting at p = by_count e.lds.imu_semaphore refl
    where
      by_count : (count : ℕ) → e.lds.imu_semaphore ≡ count → Here
      by_count zero z = imu_wait e.lds e.there at z
      by_count (suc count) z = can_step _ (
          imu_wake n e.lds count [] e.lds.lidars at e.there (signal_taken z) (
            ap (λ b. distribute_imu_from c b (suc fuel) 0 e.lds.lidars) e.requested_exit
            ∙ distribute_imu_exit to_uint8 to_double c fuel 0 e.lds.lidars))
  imu_outlook asking at p = can_step _ (imu_ask n at)
  imu_outlook ended at p = destructor_outlook n.destructor refl p at

  points_outlook : (t : PollThread) → n.points_thread ≡ t → Here
  points_outlook calling at = can_step _ (points_call n at)
  points_outlook waiting at = by_count e.lds.pcd_semaphore refl
    where
      by_count : (count : ℕ) → e.lds.pcd_semaphore ≡ count → Here
      by_count zero z = points_wait e.lds e.there at z
      by_count (suc count) z = can_step _ (
          points_wake n e.lds count [] e.lds.lidars at e.there (signal_taken z) (
            ap (λ b. distribute_from to_uint8 to_double c b (suc fuel) 0 e.lds.lidars)
              e.requested_exit
            ∙ distribute_exit to_uint8 to_double c fuel 0 e.lds.lidars))
  points_outlook asking at = can_step _ (points_ask n at)
  points_outlook ended at = imu_outlook n.imu_thread refl at

module _ {R : Type 0} (to_uint8 : R → ℕ) (to_double : ℕ → R) (c : Settings) (fuel : ℕ) where
  -- Once the destructor has signalled the exit, with an Lds, every run of the node's own threads has
  -- at most 6 steps, and when it can go no further the node is destroyed, or a poll thread waits for
  -- its semaphore at 0.
  pub exit_ends :
      (n m : DriverNode R) (k : ℕ)
      → IsExiting n
      → Run to_uint8 to_double c (suc fuel) n k m
      → (k ≤ 6) × Outlook to_uint8 to_double c (suc fuel) m
  exit_ends n m k e run =
      let (e', l) = Run-IsExiting to_uint8 to_double c (suc fuel) run e in
      (
        omega (arith, steps_left-le n),
        points_outlook to_uint8 to_double c fuel m e' m.points_thread refl,
      )
