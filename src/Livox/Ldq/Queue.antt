-- ===== src/Livox/Ldq/Queue.antt =====
-- What the packet queue promises: a bounded queue of packets.
use firt_version_ws.Prelude.{ℕ, if◌then◌else◌, Option, none, some, List, [], ◌∷◌, ◌++◌, length, ltb}

module _ {A : Type 0} where
  -- A packet that does not fit is dropped.
  unfoldable pub offer : ℕ → A → List A → List A
  offer capacity a queue = if ltb (length queue) capacity then queue ++ (a ∷ []) else queue

  unfoldable pub poll : List A → Option A × List A
  poll [] = (none, [])
  poll (a ∷ queue) = (some a, queue)

-- What a client does.
pub data Op (A : Type 0) : Type 0 where
  push : A → Op A
  pop : Op A

module _ {A : Type 0} where
  -- What each pop returns, and the queue at the end.
  unfoldable pub queue_run : ℕ → List (Op A) → List A → List (Option A) × List A
  unfolding offer poll
  queue_run capacity [] queue = ([], queue)
  queue_run capacity (push a ∷ ops) queue = queue_run capacity ops (offer capacity a queue)
  queue_run capacity (pop ∷ ops) queue =
      let (out, rest) = poll queue in
      let (outs, end) = queue_run capacity ops rest in (out ∷ outs, end)
