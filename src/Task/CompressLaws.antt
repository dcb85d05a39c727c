-- ===== src/Task/CompressLaws.antt =====
-- What compress_waypoints() keeps and how long its result is.
use firt_version_ws.Prelude.{
  Bool, true, false, not, ◌&&◌, ◌||◌, ℕ, ◌+◌, ◌≤◌, ◌≡◌, refl, ◌∙◌, List, [], ◌∷◌, arith, inl, inr,
  Bool-cases, if◌then◌else◌, ◌==◌, length, length-append, Embeds, done, keep, Embeds-append,
  last_or, last_or-append,
}
use firt_version_ws.Platform.{Platform, dec, lt, le, neg, ◌⊕◌, ◌⊖◌, ◌⊗◌}
use firt_version_ws.Task.State.{Waypoint}
use firt_version_ws.Task.Compress.{is_key, flush, compress_from, compress_waypoints}

or_unless : (c e d : Bool) → e ≡ not c → (c || (e && d)) ≡ (c || d)
or_unless true e d h = refl
or_unless false e d h = rw h refl

module _ {R : Type 0} ⦃p : Platform R⦄ where
  -- Seen from above, the path bends at the middle point: the steps into and out of it span an area
  -- above 1e-6, or the one goes back against the other by more than 1e-6.
  abbrev pub bends : Waypoint R → Waypoint R → Waypoint R → Bool
  bends prev curr next =
      let ax = curr.x ⊖ prev.x in
      let ay = curr.y ⊖ prev.y in
      let bx = next.x ⊖ curr.x in
      let by = next.y ⊖ curr.y in
      lt (dec 1 6) (p.abs (ax ⊗ by ⊖ ay ⊗ bx)) || lt (ax ⊗ bx ⊕ ay ⊗ by) (neg (dec 1 6))

  -- The points where the path bends, from the point `curr` on, and the last one.
  pub bends_from : Waypoint R → Waypoint R → List (Waypoint R) → List (Waypoint R)
  bends_from prev curr [] = curr ∷ []
  bends_from prev curr (next ∷ rest) =
      let later = bends_from curr next rest in if bends prev curr next then curr ∷ later else later

  pub bend_points : List (Waypoint R) → List (Waypoint R)
  unfolding bends_from
  bend_points (a ∷ b ∷ rest) = a ∷ bends_from a b rest
  bend_points waypoints = waypoints

  module _ (ordered : (a b : R) → le a b ≡ not (lt b a)) where
    is_key-bends : (prev curr next : Waypoint R) → is_key prev curr next ≡ bends prev curr next
    unfolding is_key
    is_key-bends prev curr next = or_unless _ _ _ (ordered _ _)

    compress_from-Embeds :
        (prev curr start : Waypoint R) (merged : ℕ) (rest : List (Waypoint R))
        → Embeds (bends_from prev curr rest) (compress_from prev curr start merged rest)
    unfolding bends_from compress_from
    compress_from-Embeds prev curr start merged [] =
        Embeds-append (flush merged start prev) (keep done)
    compress_from-Embeds prev curr start merged (next ∷ rest) =
        elim (Bool-cases (bends prev curr next)) [
          | inl key ↦
              rw (is_key-bends prev curr next, key)
                (Embeds-append (flush merged start prev)
                  (keep (compress_from-Embeds curr next curr 0 rest)))
          | inr plain ↦
              rw (is_key-bends prev curr next, plain)
                (compress_from-Embeds curr next _ (merged + 1) rest)
        ]

    -- If `a <= b` is the opposite of `b < a`, every point where the path bends as seen from above, and
    -- both its ends, are in the result, in their order. A change of height is no bend.
    pub compress-bend_points :
        (waypoints : List (Waypoint R))
        → Embeds (bend_points waypoints) (compress_waypoints waypoints)
    unfolding bend_points compress_waypoints
    compress-bend_points [] = done
    compress-bend_points (a ∷ []) = keep done
    compress-bend_points (a ∷ b ∷ []) = unfold bends_from in keep (keep done)
    compress-bend_points (a ∷ b ∷ c ∷ rest) = keep (compress_from-Embeds a b a 0 (c ∷ rest))

  length-flush : (merged : ℕ) (start end : Waypoint R) → length (flush merged start end) ≤ merged
  unfolding flush
  length-flush merged start end = ground arith

  length-compress_from :
      (prev curr start : Waypoint R) (merged : ℕ) (rest : List (Waypoint R))
      → length (compress_from prev curr start merged rest) ≤ merged + 1 + length rest
  unfolding compress_from
  length-compress_from prev curr start merged [] =
      omega
        (arith, length-flush merged start prev, length-append (flush merged start prev) (curr ∷ []))
  length-compress_from prev curr start merged (next ∷ rest) =
      elim (Bool-cases (is_key prev curr next)) [
        | inl key ↦
            let later = compress_from curr next curr 0 rest in
            rw key (
              omega (
                arith,
                length-flush merged start prev,
                length-append (flush merged start prev) (curr ∷ later),
                length-compress_from curr next curr 0 rest,
              ))
        | inr plain ↦
            let start' = if merged == 0 then prev else start in
            rw plain (omega (arith, length-compress_from curr next start' (merged + 1) rest))
      ]

  last-compress_from :
      (d prev curr start : Waypoint R) (merged : ℕ) (rest : List (Waypoint R))
      → last_or d (compress_from prev curr start merged rest) ≡ last_or curr rest
  unfolding compress_from
  last-compress_from d prev curr start merged [] =
      last_or-append d (flush merged start prev) curr []
  last-compress_from d prev curr start merged (next ∷ rest) =
      elim (Bool-cases (is_key prev curr next)) [
        | inl key ↦ rw key (
            last_or-append d (flush merged start prev) curr _
            ∙ last-compress_from curr curr next curr 0 rest)
        | inr plain ↦ rw plain (last-compress_from d curr next _ (merged + 1) rest)
      ]

  -- The result is never longer than the path, and ends at the same point.
  pub compress-length-last :
      (d : Waypoint R) (waypoints : List (Waypoint R))
      → (length (compress_waypoints waypoints) ≤ length waypoints)
        × (last_or d (compress_waypoints waypoints) ≡ last_or d waypoints)
  unfolding compress_waypoints
  compress-length-last d [] = (omega arith, refl)
  compress-length-last d (a ∷ []) = (omega arith, refl)
  compress-length-last d (a ∷ b ∷ []) = (omega arith, refl)
  compress-length-last d (a ∷ b ∷ c ∷ rest) = (
    omega (arith, length-compress_from a b a 0 (c ∷ rest)),
    last-compress_from a a b a 0 (c ∷ rest),
  )
