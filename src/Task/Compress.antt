-- ===== src/Task/Compress.antt =====
-- compress_waypoints(): keeps the corners and the turning points of a path, drops the points between
-- them, and puts in the midpoint of a long straight run. The loop's indices i - 1, i and i + 1 are a
-- window that moves along the list; of current_line_points only the size is used.
use firt_version_ws.Prelude.{
  ℕ, ◌+◌, Bool, ◌&&◌, ◌||◌, if◌then◌else◌, List, [], ◌∷◌, ◌++◌, leb, ◌==◌,
}
use firt_version_ws.Platform.{Platform, ◌⊕◌, ◌⊖◌, ◌⊗◌, ◌⊘◌, dec, neg, lt, le}
use firt_version_ws.Task.State.{Waypoint}

module _ {R : Type 0} ⦃p : Platform R⦄ where
  -- The cross and the dot product of the steps into and out of the middle point.
  abbrev pub cross_product : Waypoint R → Waypoint R → Waypoint R → R
  cross_product prev curr next =
      (curr.x ⊖ prev.x) ⊗ (next.y ⊖ curr.y) ⊖ (curr.y ⊖ prev.y) ⊗ (next.x ⊖ curr.x)

  abbrev pub dot_product : Waypoint R → Waypoint R → Waypoint R → R
  dot_product prev curr next =
      (curr.x ⊖ prev.x) ⊗ (next.x ⊖ curr.x) ⊕ (curr.y ⊖ prev.y) ⊗ (next.y ⊖ curr.y)

  unfoldable pub is_uturn : Waypoint R → Waypoint R → Waypoint R → Bool
  is_uturn prev curr next =
      le (p.abs (cross_product prev curr next)) (dec 1 6)
      && lt (dot_product prev curr next) (neg (dec 1 6))

  -- A corner or a turning point.
  unfoldable pub is_key : Waypoint R → Waypoint R → Waypoint R → Bool
  unfolding is_uturn
  is_key prev curr next =
      lt (dec 1 6) (p.abs (cross_product prev curr next)) || is_uturn prev curr next

  unfoldable pub midpoint : Waypoint R → Waypoint R → Waypoint R
  midpoint start end = record {
    x = (start.x ⊕ end.x) ⊘ dec 2 0;
    y = (start.y ⊕ end.y) ⊘ dec 2 0;
    z = (start.z ⊕ end.z) ⊘ dec 2 0;
    yaw = start.yaw;
  }

  -- What a finished straight run of `merged` dropped points leaves behind.
  unfoldable pub flush : ℕ → Waypoint R → Waypoint R → List (Waypoint R)
  unfolding midpoint
  flush merged start end = if leb 4 merged then midpoint start end ∷ [] else []

  -- The loop at the point `curr`, and what follows the loop when `curr` is the last point.
  unfoldable pub compress_from :
      Waypoint R → Waypoint R → Waypoint R → ℕ → List (Waypoint R) → List (Waypoint R)
  unfolding flush is_key
  compress_from prev curr start merged [] = flush merged start prev ++ (curr ∷ [])
  compress_from prev curr start merged (next ∷ rest) =
      let kept = flush merged start prev ++ (curr ∷ compress_from curr next curr 0 rest) in
      let skipped =
        compress_from curr next (if merged == 0 then prev else start) (merged + 1) rest in
      if is_key prev curr next then kept else skipped

  unfoldable pub compress_waypoints : List (Waypoint R) → List (Waypoint R)
  unfolding compress_from
  compress_waypoints (a ∷ b ∷ c ∷ rest) = a ∷ compress_from a b a 0 (c ∷ rest)
  compress_waypoints waypoints = waypoints
