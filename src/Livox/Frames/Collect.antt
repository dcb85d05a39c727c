-- ===== src/Livox/Frames/Collect.antt =====
-- The loop of CheckTimer over the handlers empties them all into one frame.

use firt_version_ws.Prelude.{
  none, ℕ, ◌+◌, ◌≤◌, ◌<◌, ◌≡◌, refl, sym, ap, ◌∙◌, Bool, true, false, if◌then◌else◌, some, List, [],
  ◌∷◌, ◌++◌, arith, length, ◌==◌, leb, inl, inr, Bool-cases, All,
}
use firt_version_ws.Livox.Data.{PointXyzlt, no_points}
use firt_version_ws.Livox.Frames.Handler.{
  LidarPubHandler, get_lidar_base_time, get_lidar_point_clouds,
}
use firt_version_ws.Livox.Frames.Timer.{find, PointFrame, lidar_point, collect}
use firt_version_ws.Livox.Frames.Laws.{Ascending, find-below, points_at, points_in}

module _ {R : Type 0} where
  pub append-nil : (xs : List (PointXyzlt R)) → xs ++ [] ≡ xs
  append-nil [] = refl
  append-nil (x ∷ xs) = ap (λ l. x ∷ l) (append-nil xs)

  pub no_points-nil : (xs : List (PointXyzlt R)) → no_points xs ≡ true → xs ≡ []
  no_points-nil [] h = refl
  no_points-nil (x ∷ xs) h = ground arith

  -- In ascending handlers a lidar's points are at one place.
  points_at-cons :
      (id k : ℕ) (h : LidarPubHandler R) (rest : List (ℕ × LidarPubHandler R))
      → All (λ e. k < e.0) rest
      → (if id == k then h.points_clouds else []) ++ points_at id rest
        ≡ points_at id ((k, h) ∷ rest)
  points_at-cons id k h rest below = elim (Bool-cases (id == k)) [
    | inl same ↦
        let e : id ≤ k = ground (arith, same) in
        rw (same, find-below id k rest e below) (append-nil h.points_clouds)
    | inr other ↦ rw other refl
  ]

  points_at-empty :
      (id k : ℕ) (h : LidarPubHandler R) (rest : List (ℕ × LidarPubHandler R))
      → points_at id rest ≡ []
      → points_at id ((k, record h { points_clouds = [] }) ∷ rest) ≡ []
  points_at-empty id k h rest e = elim (Bool-cases (id == k)) [
    | inl same ↦ rw same refl
    | inr other ↦ rw other e
  ]

  nothing-append :
      (b : Bool) (xs ys : List (PointXyzlt R)) → xs ≡ [] → (if b then xs else []) ++ ys ≡ ys
  nothing-append true xs ys e = rw e refl
  nothing-append false xs ys e = refl

  pub record Collected (handlers : List (ℕ × LidarPubHandler R)) (lidar_num : ℕ) : Type 0 where
    pub frame : PointFrame R
    pub emptied : List (ℕ × LidarPubHandler R)
    pub returns : collect lidar_num handlers ≡ some (frame, emptied)
    pub same_keys : (k : ℕ) → All (λ e. k < e.0) handlers → All (λ e. k < e.0) emptied
    pub ascending : Ascending emptied
    pub ids : (id : ℕ) → find id handlers ≡ none → find id emptied ≡ none
    pub published : (id : ℕ) → points_in id frame ≡ points_at id handlers
    pub none_left : (id : ℕ) → points_at id emptied ≡ []

  pub collect-lem :
      (handlers : List (ℕ × LidarPubHandler R)) (lidar_num : ℕ)
      → Ascending handlers
      → lidar_num + length handlers ≤ 32
      → Collected handlers lidar_num
  unfolding collect get_lidar_point_clouds
  collect-lem [] lidar_num up room = record {
    frame = [];
    emptied = [];
    returns = refl;
    same_keys = λ k h. h;
    ascending = tt;
    ids = λ id e. refl;
    published = λ id. refl;
    none_left = λ id. refl;
  }
  collect-lem ((k, h) ∷ handlers) lidar_num up room =
      let inside : leb 32 lidar_num ≡ false = ground (arith, room) in
      elim (Bool-cases (no_points h.points_clouds)) [
        | inl empty ↦
            let rest = collect-lem handlers lidar_num up.1 (omega (arith, room)) in
            record {
              frame = rest.frame;
              emptied = (k, record h { points_clouds = [] }) ∷ rest.emptied;
              returns = rw (inside, empty, rest.returns) refl;
              same_keys = λ j b. (b.0, rest.same_keys j b.1);
              ascending = (rest.same_keys k up.0, rest.ascending);
              ids = λ id e. ground (arith, e, rest.ids id);
              published = λ id.
                  rest.published id
                  ∙ sym (
                      nothing-append (id == k) h.points_clouds (points_at id handlers)
                        (no_points-nil h.points_clouds empty))
                  ∙ points_at-cons id k h handlers up.0;
              none_left = λ id. points_at-empty id k h rest.emptied (rest.none_left id);
            }
        | inr busy ↦
            let rest = collect-lem handlers (lidar_num + 1) up.1 (omega (arith, room)) in
            record {
              frame = (get_lidar_base_time h, lidar_point k h.points_clouds) ∷ rest.frame;
              emptied = (k, record h { points_clouds = [] }) ∷ rest.emptied;
              returns = rw (inside, busy, rest.returns) refl;
              same_keys = λ j b. (b.0, rest.same_keys j b.1);
              ascending = (rest.same_keys k up.0, rest.ascending);
              ids = λ id e. ground (arith, e, rest.ids id);
              published = λ id.
                  ap (λ l. (if id == k then h.points_clouds else []) ++ l) (rest.published id)
                  ∙ points_at-cons id k h handlers up.0;
              none_left = λ id. points_at-empty id k h rest.emptied (rest.none_left id);
            }
      ]
