-- ===== src/FastLio/Spinning/Blind.antt =====
-- process() and the blind range, whatever the lidar's type.
use firt_version_ws.Prelude.{
  if_false, sym, ℕ, ◌+◌, ◌%◌, Bool, true, false, not, ◌&&◌, if◌then◌else◌, ◌≡◌, refl, subst, inl,
  inr, Bool-cases, Option, none, some, List, [], ◌∷◌, ◌++◌, All, ◌==◌, ◌>>=◌, get_elem?, last_or,
}
use firt_version_ws.Platform.{Platform, dec, lt, ◌⊗◌}
use firt_version_ws.FastLio.Split.{IsOrder}
use firt_version_ws.FastLio.Preprocess.{PointType, Preprocess, is_outside}
use firt_version_ws.FastLio.Clouds.{
  CloudPoint, Layers, if_outside, default_handler, mid360_point, mid360_from, mid360_handler,
}
use firt_version_ws.FastLio.Spinning.{
  Features, oust64_handler, OusterPoint, VelodynePoint, TimeUnit, time_unit_scale, range_of,
  push_filtered, oust64_point, oust64_from, velodyne_untimed, velodyne_timed, velodyne_from,
  velodyne_handler, process_cloud,
}

-- P of the result, if there is one.
abbrev OnSome : {A : Type 0} → (A → Type 0) → Option A → Type 0
OnSome P none = Unit {0}
OnSome P (some a) = P a

>>=-OnSome :
    {A B : Type 0} (Q : A → Type 0) (P : B → Type 0) (o : Option A) (f : A → Option B)
    → OnSome Q o
    → ((a : A) → Q a → OnSome P (f a))
    → OnSome P (o >>= f)
>>=-OnSome Q P none f h k = tt
>>=-OnSome Q P (some a) f h k = k a h

reads-OnSome :
    {R B : Type 0} (P : B → Type 0) (flag : Option Bool) (yaw time : Option R)
    (f : Bool → R → R → Option B)
    → ((b c : R) → OnSome P (f true b c))
    → ((b c : R) → OnSome P (f false b c))
    → OnSome P (flag >>= λ a. yaw >>= λ b. time >>= λ c. f a b c)
reads-OnSome P none yaw time f on off = tt
reads-OnSome P (some a) none time f on off = tt
reads-OnSome P (some a) (some b) none f on off = tt
reads-OnSome P (some true) (some b) (some c) f on off = on b c
reads-OnSome P (some false) (some b) (some c) f on off = off b c

All-append : {A : Type 0} (P : A → Type 0) (xs ys : List A) → All P xs → All P ys → All P (xs ++ ys)
All-append P [] ys h k = k
All-append P (x ∷ xs) ys h k = (h.0, All-append P xs ys h.1 k)

if-cases : {A : Type 0} (P : A → Type 0) (b : Bool) (x y : A) → P x → P y → P (if b then x else y)
if-cases P true x y h k = h
if-cases P false x y h k = k

module _ {R : Type 0} ⦃p : Platform R⦄ (s : Preprocess R) where
  -- The point is not nearer than the blind range.
  abbrev pub Far : PointType R → Type 0
  Far a = lt (range_of a) (s.blind ⊗ s.blind) ≡ false

  if_outside-Far : IsOrder R → (a : PointType R) → All Far (if_outside s a)
  unfolding if_outside is_outside
  if_outside-Far order a = elim (Bool-cases (is_outside s a)) [
    | inl out ↦ rw out (order.asymmetric _ _ out, tt)
    | inr near ↦ rw near tt
  ]

  default_handler-Far :
      IsOrder R → (points : List (CloudPoint R)) → All Far (default_handler s points)
  unfolding default_handler
  default_handler-Far order [] = tt
  default_handler-Far order (q ∷ points) =
      All-append Far _ _ (if_outside-Far order _) (default_handler-Far order points)

  push_filtered-Far : IsOrder R → (i : ℕ) (a : PointType R) → OnSome (All Far) (push_filtered s i a)
  unfolding push_filtered
  push_filtered-Far order i a =
      if-cases (OnSome (All Far)) (s.point_filter_num == 0) _ _ tt
        (if-cases (All Far) (i % s.point_filter_num == 0) _ _ (if_outside-Far order a) tt)

  -- The rest of a loop after a point's own part.
  then_rest :
      (here : List (PointType R)) (rest : Option (List (PointType R)))
      → All Far here
      → OnSome (All Far) rest
      → OnSome (All Far) (rest >>= λ r. some (here ++ r))
  then_rest here none h k = tt
  then_rest here (some r) h k = All-append Far here r h k

  unless_near :
      (chosen near : Bool) (a : PointType R)
      → lt (range_of a) (s.blind ⊗ s.blind) ≡ near
      → All Far (if chosen && not near then a ∷ [] else [])
  unless_near true true a h = tt
  unless_near true false a h = (h, tt)
  unless_near false near a h = tt

  oust64_from-Far :
      (to_double : ℕ → R) (scale : R) (i : ℕ) (points : List (OusterPoint R))
      → OnSome (All Far) (oust64_from to_double s scale i points)
  unfolding oust64_from oust64_point
  oust64_from-Far to_double scale i [] = tt
  oust64_from-Far to_double scale i (q ∷ points) =
      >>=-OnSome (All Far) (All Far) (oust64_point to_double s scale i q) _
        (if-cases (OnSome (All Far)) (s.point_filter_num == 0) _ _ tt
          (unless_near (i % s.point_filter_num == 0) _ _ refl))
        (λ here h. then_rest here _ h (oust64_from-Far to_double scale (i + 1) points))

module _ {R : Type 0} ⦃p : Platform R⦄ (s : Preprocess R) (atan2 : R → R → R) where
  mid360_from-Far :
      IsOrder R
      → (omega_l : R) (l : Layers R) (points : List (CloudPoint R))
      → OnSome (All (Far s)) (mid360_from atan2 s omega_l l points)
  unfolding mid360_from mid360_point
  mid360_from-Far order omega_l l [] = tt
  mid360_from-Far order omega_l l (q ∷ points) =
      >>=-OnSome (λ r. All (Far s) r.1) (All (Far s)) (mid360_point atan2 s omega_l l q) _
        (reads-OnSome (λ r. All (Far s) r.1) (get_elem? l.is_first q.line)
          (get_elem? l.yaw_fp q.line) (get_elem? l.time_last q.line) _ (λ b c. tt)
          (λ b c. if_outside-Far s order _))
        (λ r h. then_rest s r.1 _ h (mid360_from-Far order omega_l r.0 points))

  velodyne_untimed-Far :
      IsOrder R
      → (omega_l : R) (l : Layers R) (i : ℕ) (q : VelodynePoint R)
      → OnSome (λ r. All (Far s) r.1) (velodyne_untimed atan2 s omega_l l i q)
  unfolding velodyne_untimed
  velodyne_untimed-Far order omega_l l i q =
      reads-OnSome (λ r. All (Far s) r.1) (get_elem? l.is_first q.ring) (get_elem? l.yaw_fp q.ring)
        (get_elem? l.time_last q.ring) _ (λ b c. tt)
        (λ b c.
          >>=-OnSome (All (Far s)) (λ r. All (Far s) r.1) (push_filtered s i _) _
            (push_filtered-Far s order i _) (λ here h. h))

  velodyne_timed-Far :
      IsOrder R
      → (scale : R) (l : Layers R) (i : ℕ) (q : VelodynePoint R)
      → OnSome (λ r. All (Far s) r.1) (velodyne_timed atan2 s scale l i q)
  unfolding velodyne_timed
  velodyne_timed-Far order scale l i q =
      >>=-OnSome (All (Far s)) (λ r. All (Far s) r.1) (push_filtered s i _) _
        (push_filtered-Far s order i _) (λ here h. h)

  velodyne_from-Far :
      IsOrder R
      → (scale omega_l : R) (given : Bool) (l : Layers R) (i : ℕ) (points : List (VelodynePoint R))
      → OnSome (All (Far s)) (velodyne_from atan2 s scale omega_l given l i points)
  unfolding velodyne_from
  velodyne_from-Far order scale omega_l given l i [] = tt
  velodyne_from-Far order scale omega_l given l i (q ∷ points) =
      >>=-OnSome (λ r. All (Far s) r.1) (All (Far s))
        (if given
          then velodyne_timed atan2 s scale l i q
          else velodyne_untimed atan2 s omega_l l i q)
        _
        (if-cases (OnSome (λ r. All (Far s) r.1)) given _ _ (velodyne_timed-Far order scale l i q)
          (velodyne_untimed-Far order omega_l l i q))
        (λ r h.
          then_rest s r.1 _ h (velodyne_from-Far order scale omega_l given r.0 (i + 1) points))

  velodyne_handler-Far :
      IsOrder R
      → (features : Features R) (to_double : ℕ → R) (scale : R) (points : List (VelodynePoint R))
      → s.feature_enabled ≡ false
      → OnSome (All (Far s)) (velodyne_handler atan2 features to_double s scale points)
  unfolding velodyne_handler
  velodyne_handler-Far order features to_double scale [] plain = tt
  velodyne_handler-Far order features to_double scale (q ∷ points) plain =
      subst (OnSome (All (Far s))) (sym (if_false _ _ plain))
        (velodyne_from-Far order scale _ (lt (dec 0 0) (last_or q points).time) _ 0 (q ∷ points))

module _ {R : Type 0} ⦃p : Platform R⦄ {Message : Type 0} (features : Features R)
    (atan2 : R → R → R) (to_double : ℕ → R) (from_ouster : Message → List (OusterPoint R))
    (from_velodyne : Message → List (VelodynePoint R))
    (from_livox from_plain : Message → List (CloudPoint R)) where
  -- If `<` orders the numbers and features are disabled, no point of a scan that process() makes of a
  -- PointCloud2 is nearer than the blind range, whatever the lidar's type and the unit of its times.
  pub process_cloud-Far :
      IsOrder R
      → (s : Preprocess R) (time_unit : TimeUnit) (msg : Message) (surf : List (PointType R))
      → s.feature_enabled ≡ false
      → process_cloud features atan2 to_double from_ouster from_velodyne from_livox from_plain s
          time_unit msg
        ≡ some surf
      → All (Far s) surf
  unfolding process_cloud oust64_handler mid360_handler
  process_cloud-Far order s time_unit msg surf plain run =
      let scale = time_unit_scale time_unit in
      subst (OnSome (All (Far s))) run (
        if-cases (OnSome (All (Far s))) (s.lidar_type == 3) _ _
          (subst (OnSome (All (Far s))) (sym (if_false _ _ plain))
            (oust64_from-Far s to_double scale 0 (from_ouster msg)))
          (if-cases (OnSome (All (Far s))) (s.lidar_type == 2) _ _
            (velodyne_handler-Far s atan2 order features to_double scale (from_velodyne msg) plain)
            (if-cases (OnSome (All (Far s))) (s.lidar_type == 4) _ _
              (mid360_from-Far s atan2 order _ _ (from_livox msg))
              (default_handler-Far s order (from_plain msg)))))
