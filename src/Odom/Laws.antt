-- ===== src/Odom/Laws.antt =====
-- When the odometry node publishes, and with which offset.

use firt_version_ws.Prelude.{
  ℕ, zero, suc, ◌+◌, ◌≤◌, ◌<◌, false, ◌≡◌, refl, ◌∙◌, List, [], ◌∷◌, arith,
}
use firt_version_ws.Platform.{Platform, ◌⊕◌, ◌⊖◌, ◌⊘◌, dec}
use firt_version_ws.Offboard.State.{Pose}
use firt_version_ws.Odom.Defs.{
  OdomNode, OdomEvent, radar, tick, radar_cb, timer_cb, odom_step, odom_run, new_node,
}

module _ {R : Type 0} where
  -- How many odometry messages there are.
  abbrev pub radars : List (OdomEvent R) → ℕ
  radars [] = 0
  radars (radar msg ∷ es) = suc (radars es)
  radars (tick ∷ es) = radars es

module _ {R : Type 0} ⦃p : Platform R⦄ where
  -- The float sum of the heights of the first `n` messages, from `acc` on.
  abbrev pub sum_first : ℕ → R → List (OdomEvent R) → R
  sum_first zero acc es = acc
  sum_first (suc n) acc [] = acc
  sum_first (suc n) acc (radar msg ∷ es) = sum_first n (p.to_float (acc ⊕ msg.position.z)) es
  sum_first (suc n) acc (tick ∷ es) = sum_first (suc n) acc es

  settled :
      (es : List (OdomEvent R)) (n : OdomNode R)
      → n.checktime ≡ 11
      → (odom_run es n).offset ≡ n.offset
  unfolding odom_run odom_step
  settled [] n h = refl
  settled (radar msg ∷ es) n h =
      settled es (radar_cb msg n) (unfold radar_cb in ground (arith, h))
      ∙ (unfold radar_cb in ground (arith, h))
  settled (tick ∷ es) n h =
      settled es (timer_cb n) (unfold timer_cb in ground (arith, h))
      ∙ (unfold timer_cb in ground (arith, h))

  collecting :
      (j : ℕ) (es : List (OdomEvent R)) (n : OdomNode R)
      → n.checktime + j ≡ 10
      → j < radars es
      → (odom_run es n).offset ≡ p.to_float (sum_first j n.sum_offset es ⊘ dec 10 0)
  unfolding odom_run odom_step
  collecting zero [] n c l = absurd (omega arith)
  collecting (suc j) [] n c l = absurd (omega arith)
  collecting zero (radar msg ∷ es) n c l =
      settled es (radar_cb msg n) (unfold radar_cb in ground (arith, c))
      ∙ (unfold radar_cb in ground (arith, c))
  collecting zero (tick ∷ es) n c l =
      unfold timer_cb in
      (collecting zero es (timer_cb n) (ground (arith, c)) (omega arith) ∙ ground (arith, c))
  collecting (suc j) (radar msg ∷ es) n c l =
      unfold radar_cb in
      (collecting j es (radar_cb msg n) (ground (arith, c)) (omega arith) ∙ ground (arith, c))
  collecting (suc j) (tick ∷ es) n c l =
      unfold timer_cb in
      (collecting (suc j) es (timer_cb n) (ground (arith, c)) (omega arith) ∙ ground (arith, c))

  -- Once more than ten messages have come to a node that had none, the offset is the float average of
  -- the heights of the first ten, and it stays so.
  pub odom_offset :
      (es : List (OdomEvent R)) (n : OdomNode R)
      → n.checktime ≡ 0
      → 10 < radars es
      → (odom_run es n).offset ≡ p.to_float (sum_first 10 n.sum_offset es ⊘ dec 10 0)
  odom_offset es n c l = collecting 10 es n (omega arith) l

  quiet :
      (es : List (OdomEvent R)) (n : OdomNode R)
      → n.checktime + radars es ≤ 10
      → n.data_ready ≡ false
      → ((odom_run es n).out ≡ n.out)
        × ((odom_run es n).data_ready ≡ false)
        × ((odom_run es n).checktime ≡ n.checktime + radars es)
  unfolding odom_run odom_step
  quiet [] n l r = (refl, r, omega arith)
  quiet (radar msg ∷ es) n l r = unfold radar_cb in ground (arith, quiet es (radar_cb msg n))
  quiet (tick ∷ es) n l r = unfold timer_cb in ground (arith, quiet es (timer_cb n))

  -- Nothing is published in a run with at most ten messages from a new node.
  pub odom_silent :
      (es : List (OdomEvent R)) (blank : Pose R)
      → radars es ≤ 10
      → (odom_run es (new_node blank)).out ≡ []
  unfolding new_node
  odom_silent es blank l = (quiet es (new_node blank) (omega arith) refl).0

  -- From the eleventh message on, the timer publishes the pose of the last message, its height less
  -- the offset.
  pub odom_publishes :
      (msg : Pose R) (n : OdomNode R)
      → 10 ≤ n.checktime
      → let u = radar_cb msg n in
        (timer_cb u).out
        ≡ record {
          position = record {
            x = msg.position.x;
            y = msg.position.y;
            z = p.to_float (msg.position.z ⊖ u.offset);
          };
          orientation = msg.orientation;
        }
          ∷ n.out
  unfolding radar_cb timer_cb
  odom_publishes msg n l = ground arith
