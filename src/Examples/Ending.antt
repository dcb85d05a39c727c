-- ===== src/Examples/Ending.antt =====
-- The driver's topics and its end at concrete inputs.
use firt_version_ws.Prelude.{
  ℕ, zero, suc, ◌<◌, ◌^◌, ◌≤◌, true, ◌≡◌, ◌≢◌, refl, none, some, [], ◌∷◌, ◌++◌, map, arith,
  get_elem?, replicate, ℤ, pos, pos_part,
}
use firt_version_ws.Livox.Lds.{LidarDevice}
use firt_version_ws.Livox.Topics.{
  codes, Publisher, Publishers, no_publishers, points, request, request_all,
}
use firt_version_ws.Livox.Topics.Laws.{underlined}
use firt_version_ws.Livox.Topics.Names.{request-same_topic}
use firt_version_ws.Livox.Node.{
  DriverNode, calling, waiting, asking, ended, signalled, points_joined, destroyed, Run, no_step,
  then_step, points_ask, imu_ask, join_points, join_imu,
}
use firt_version_ws.Livox.Node.Exit.{IsExiting, Outlook, exit_ends}
use firt_version_ws.Livox.Node.Asleep.{exit_hangs}
use firt_version_ws.Examples.Address.{inet_ntoa, inet_ntoa-IsAddress}
use firt_version_ws.Examples.Lidar.{driver, settings}

-- The node while its destructor waits for the threads, with both at the question.
abbrev exiting : DriverNode ℤ
exiting = record {
  lds = some (record driver { request_exit = true });
  exit_signal = true;
  points_thread = asking;
  imu_thread = ended;
  destructor = signalled;
}

exiting-IsExiting : IsExiting exiting
exiting-IsExiting = record {
  lds = record driver { request_exit = true };
  there = refl;
  requested_exit = refl;
  signal = refl;
  begun = (λ e. cc, λ e. cc);
}

-- One of the threads asks, and the destructor joins both.
abbrev gone : DriverNode ℤ
gone = record exiting { points_thread = ended; destructor = destroyed }

exit_ends_example : (3 ≤ 6) × Outlook pos_part pos (settings 1) 1 gone
unfolding firt_version_ws.Livox.Node.ask_exit
exit_ends_example = exit_ends pos_part pos (settings 1) 0 exiting gone 3 exiting-IsExiting (
    then_step
      (then_step (then_step no_step (points_ask exiting refl))
        (join_points (record exiting { points_thread = ended }) refl refl))
      (join_imu (record exiting { points_thread = ended; destructor = points_joined }) refl refl))

-- The same with the point cloud thread in its Wait, and after a step of the other thread.
abbrev sleeping : DriverNode ℤ
sleeping = record exiting {
  lds = some (record driver { request_exit = true; pcd_semaphore = 0 });
  points_thread = waiting;
  imu_thread = asking;
}

exit_hangs_example : (waiting ≡ waiting) × (signalled ≢ destroyed)
unfolding firt_version_ws.Livox.Node.ask_exit
exit_hangs_example =
    exit_hangs pos_part pos (settings 1) 1 sleeping (record sleeping { imu_thread = ended }) 1
      (record {
        lds = record driver { request_exit = true; pcd_semaphore = 0 };
        there = refl;
        count = refl;
        waits = refl;
        not_joined = (λ e. cc, λ e. cc);
      })
      (then_step no_step (imu_ask sleeping refl))

driver-words : (i : ℕ) (d : LidarDevice ℤ) → get_elem? driver.lidars i ≡ some d → d.handle < 2 ^ 32
driver-words zero d e = ground (arith, e)
driver-words (suc i) d e = cc

abbrev lidar_publisher : Publisher
lidar_publisher = record {
  msg_type = 1;
  topic_name = codes "livox/lidar_17_0_0_0";
  queue_size = 64;
}

abbrev one_publisher : Publishers
one_publisher = record {
  private_pub = some lidar_publisher ∷ replicate 31 none;
  global_pub = none;
  private_imu_pub = replicate 32 none;
  global_imu_pub = none;
  created = lidar_publisher ∷ [];
}

-- The first request for the lidar's points and the next one.
request-same_topic_example :
    (d e : LidarDevice ℤ) × (get_elem? driver.lidars 0 ≡ some d)
    × (get_elem? driver.lidars 0 ≡ some e)
    × (d.handle ≡ e.handle)
    × (lidar_publisher.topic_name ≡ codes "livox/lidar_" ++ map underlined (inet_ntoa d.handle))
unfolding request_all request no_publishers
request-same_topic_example =
    request-same_topic inet_ntoa inet_ntoa-IsAddress driver driver-words 1 [] (points 0 ∷ [])
      no_publishers one_publisher one_publisher one_publisher 0 0 lidar_publisher lidar_publisher
      refl refl refl refl refl
