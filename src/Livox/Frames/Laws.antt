-- ===== src/Livox/Frames/Laws.antt =====
-- No point is lost between a packet and the frames.

use firt_version_ws.Prelude.{
  ℕ, suc, ◌≤◌, ◌<◌, ◌≡◌, ◌≢◌, refl, if◌then◌else◌, Option, none, some, List, [], ◌∷◌, ◌++◌, arith,
  length, ◌==◌, ltb, inl, inr, Bool-cases, All,
}
use firt_version_ws.Livox.Data.{PointXyzlt}
use firt_version_ws.Livox.Frames.Handler.{LidarPubHandler}
use firt_version_ws.Livox.Frames.Timer.{PointFrame, find, insert}

module _ {A : Type 0} where
  -- Every key once, in their order.
  abbrev pub Ascending : List (ℕ × A) → Type 0
  Ascending [] = Unit {0}
  Ascending ((k, a) ∷ rest) = All (λ e. k < e.0) rest × Ascending rest

  pub find-insert_self : (id : ℕ) (a : A) (m : List (ℕ × A)) → find id (insert id a m) ≡ some a
  find-insert_self id a [] = ground arith
  find-insert_self id a ((k, b) ∷ rest) = ground (arith, find-insert_self id a rest)

  pub find-insert_ne :
      (id other : ℕ) (a : A) (m : List (ℕ × A))
      → other ≢ id
      → find other (insert id a m) ≡ find other m
  find-insert_ne id other a [] n = ground (arith, n)
  find-insert_ne id other a ((k, b) ∷ rest) n = ground (arith, n, find-insert_ne id other a rest n)

  -- A key below all others is not there.
  pub find-below : (id k : ℕ) (m : List (ℕ × A)) → id ≤ k → All (λ e. k < e.0) m → find id m ≡ none
  find-below id k [] l h = refl
  find-below id k ((j, a) ∷ rest) l h = ground (arith, l, h.0, find-below id k rest l h.1)

  insert-All :
      (id k : ℕ) (a : A) (m : List (ℕ × A))
      → k < id
      → All (λ e. k < e.0) m
      → All (λ e. k < e.0) (insert id a m)
  insert-All id k a [] l h = (l, tt)
  insert-All id k a ((j, b) ∷ rest) l h = elim (Bool-cases (id == j)) [
    | inl same ↦ rw same (l, h.1)
    | inr other ↦ elim (Bool-cases (ltb id j)) [
      | inl before ↦ rw (other, before) (l, h)
      | inr after ↦ rw (other, after) (h.0, insert-All id k a rest l h.1)
    ]
  ]

  All-weaken : (j k : ℕ) (m : List (ℕ × A)) → j ≤ k → All (λ e. k < e.0) m → All (λ e. j < e.0) m
  All-weaken j k [] l h = tt
  All-weaken j k (e ∷ rest) l h = (omega (arith, l, h.0), All-weaken j k rest l h.1)

  pub insert-Ascending :
      (id : ℕ) (a : A) (m : List (ℕ × A)) → Ascending m → Ascending (insert id a m)
  insert-Ascending id a [] h = (tt, tt)
  insert-Ascending id a ((k, b) ∷ rest) h = elim (Bool-cases (id == k)) [
    | inl same ↦ let e : id ≡ k = ground (arith, same) in rw (same, e) h
    | inr other ↦ elim (Bool-cases (ltb id k)) [
      | inl before ↦
          let l : id < k = ground (arith, before) in
          rw (other, before) ((l, All-weaken id k rest (omega arith) h.0), h)
      | inr after ↦
          let l : k < id = ground (arith, other, after) in
          rw (other, after) (insert-All id k a rest l h.0, insert-Ascending id a rest h.1)
    ]
  ]

  pub length-insert : (id : ℕ) (a : A) (m : List (ℕ × A)) → length (insert id a m) ≤ suc (length m)
  length-insert id a [] = omega arith
  length-insert id a ((k, b) ∷ rest) = ground (arith, length-insert id a rest)

module _ {R : Type 0} where
  abbrev pub waiting : Option (LidarPubHandler R) → List (PointXyzlt R)
  waiting none = []
  waiting (some h) = h.points_clouds

  -- The points of a lidar that wait in its handler.
  abbrev pub points_at : ℕ → List (ℕ × LidarPubHandler R) → List (PointXyzlt R)
  points_at id handlers = waiting (find id handlers)

  -- The points of a lidar in a frame, and in frames.
  abbrev pub points_in : ℕ → PointFrame R → List (PointXyzlt R)
  points_in id [] = []
  points_in id ((base_time, packet) ∷ frame) =
      (if id == packet.handle then packet.points else []) ++ points_in id frame

  abbrev pub points_in_all : ℕ → List (PointFrame R) → List (PointXyzlt R)
  points_in_all id [] = []
  points_in_all id (frame ∷ frames) = points_in id frame ++ points_in_all id frames
