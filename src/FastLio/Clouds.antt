-- ===== src/FastLio/Clouds.antt =====
-- preprocess.cpp: mid360_handler() and default_handler(), for messages of type PointCloud2.
pub mod Laws
pub mod Reads
use firt_version_ws.Prelude.{
  ℕ, Bool, true, false, not, if◌then◌else◌, Option, none, some, List, [], ◌∷◌, ◌++◌, ◌>>=◌,
  get_elem?, set, replicate,
}
use firt_version_ws.Platform.{Platform, ◌⊕◌, ◌⊖◌, ◌⊗◌, ◌⊘◌, dec, lt, le}
use firt_version_ws.FastLio.Preprocess.{PointType, Preprocess, is_outside}

-- A point of pl_orig, which pcl::fromROSMsg has made of the message.
pub record CloudPoint (R : Type 0) : Type 0 where
  pub x : R
  pub y : R
  pub z : R
  pub intensity : R
  pub line : ℕ

-- The vectors of mid360_handler that it reads again, one element for each of the N_SCANS lines.
pub record Layers (R : Type 0) : Type 0 where
  pub is_first : List Bool
  pub yaw_fp : List R
  pub time_last : List R

module _ {R : Type 0} ⦃p : Platform R⦄ where
  abbrev pub new_layers : ℕ → Layers R
  new_layers n = record {
    is_first = replicate n true;
    yaw_fp = replicate n (dec 0 0);
    time_last = replicate n (dec 0 0);
  }

  abbrev pub added_point : CloudPoint R → PointType R
  added_point q = record { x = q.x; y = q.y; z = q.z; intensity = q.intensity; curvature = dec 0 0 }

  -- The point alone, unless it is in the blind range.
  unfoldable pub if_outside : Preprocess R → PointType R → List (PointType R)
  if_outside s a = if is_outside s a then a ∷ [] else []

  unfoldable pub default_handler : Preprocess R → List (CloudPoint R) → List (PointType R)
  unfolding if_outside
  default_handler s [] = []
  default_handler s (q ∷ pl_orig) = if_outside s (added_point q) ++ default_handler s pl_orig

  -- The time in the turn that began at the line's first yaw, put after the line's point before.
  unfoldable pub offset_time : (omega_l yaw_fp time_last yaw_angle : R) → R
  offset_time omega_l yaw_fp time_last yaw_angle =
      let turned =
        if le yaw_angle yaw_fp then yaw_fp ⊖ yaw_angle else yaw_fp ⊖ yaw_angle ⊕ dec 360 0 in
      let curvature = p.to_float (turned ⊘ omega_l) in
      if lt curvature time_last then p.to_float (curvature ⊕ dec 360 0 ⊘ omega_l) else curvature

-- `atan2` is the one for two `float`s.
module _ {R : Type 0} ⦃p : Platform R⦄ (atan2 : R → R → R) where
  -- One turn of the loop of mid360_handler: the vectors, and the point if pl_surf gets it. `none`: the
  -- line is no index of the vectors.
  unfoldable pub mid360_point :
      Preprocess R → R → Layers R → CloudPoint R → Option (Layers R × List (PointType R))
  unfolding if_outside offset_time
  mid360_point s omega_l l q = do
    let yaw_angle = atan2 q.y q.x ⊗ dec 572957 4
    first ← get_elem? l.is_first q.line
    yaw_fp ← get_elem? l.yaw_fp q.line
    time_last ← get_elem? l.time_last q.line
    let curvature = offset_time omega_l yaw_fp time_last yaw_angle
    let started : Layers R = record {
      is_first = set l.is_first q.line false;
      yaw_fp = set l.yaw_fp q.line yaw_angle;
      time_last = set l.time_last q.line (dec 0 0);
    }
    let timed : Layers R = record l { time_last = set l.time_last q.line curvature }
    let here = if_outside s (record (added_point q) { curvature = curvature })
    some (if first then (started, []) else (timed, here))

  unfoldable pub mid360_from :
      Preprocess R → R → Layers R → List (CloudPoint R) → Option (List (PointType R))
  unfolding mid360_point
  mid360_from s omega_l l [] = some []
  mid360_from s omega_l l (q ∷ pl_orig) = do
    (l', here) ← mid360_point s omega_l l q
    rest ← mid360_from s omega_l l' pl_orig
    some (here ++ rest)

  -- pl_surf at the end. yaw_last, yaw_first and yaw_end are not read.
  unfoldable pub mid360_handler :
      (ℕ → R) → Preprocess R → List (CloudPoint R) → Option (List (PointType R))
  unfolding mid360_from
  mid360_handler to_double s pl_orig =
      mid360_from s (dec 361 3 ⊗ to_double s.scan_rate) (new_layers s.n_scans) pl_orig
