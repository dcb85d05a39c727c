-- ===== src/Pointcl/Nearest.antt =====
-- The inner loop of the matching finds a nearest detection.
use firt_version_ws.Prelude.{
  ℕ, zero, suc, ◌+◌, true, false, ◌≡◌, none, some, List, [], ◌∷◌, arith, get_elem?,
}
use mathlib.Core.Option.{some-injective}
use firt_version_ws.Platform.{Platform, lt, dec}
use firt_version_ws.Pointcl.Detect.{PoleInfo, PoleParams}
use firt_version_ws.Pointcl.Track.{Best, distance_between, nearest_from, nearest, match_pole}
use firt_version_ws.Pointcl.Matching.{better, nearest_from-cons, match_pole-IsMatch}

module _ {R : Type 0} ⦃p : Platform R⦄
    (lt_trans : (a b c : R) → lt a b ≡ true → lt b c ≡ true → lt a c ≡ true) where
  -- What is not nearer than the best so far is not nearer than the next best.
  better-least :
      (u : ℕ) (best : Best R) (pole d : PoleInfo R) (x : R)
      → lt x best.distance ≡ false
      → lt x (better u best pole d).distance ≡ false
  unfolding better
  better-least u best pole d x h =
      ground (arith, lt_trans x (distance_between pole d) best.distance)

  nearest_from-keeps :
      (u : ℕ) (best : Best R) (pole : PoleInfo R) (ds : List (PoleInfo R)) (x : R)
      → lt x best.distance ≡ false
      → lt x (nearest_from u best pole ds).distance ≡ false
  nearest_from-keeps u best pole [] x h = unfold nearest_from in h
  nearest_from-keeps u best pole (d ∷ ds) x h =
      rw (nearest_from-cons u best pole d ds) (
        nearest_from-keeps (u + 1) (better u best pole d) pole ds x
          (better-least u best pole d x h))

  better_self :
      (u : ℕ) (best : Best R) (pole d : PoleInfo R)
      → lt (distance_between pole d) (distance_between pole d) ≡ false
      → d.is_used ≡ false
      → lt (distance_between pole d) (better u best pole d).distance ≡ false
  unfolding better
  better_self u best pole d irrefl free = ground arith

  nearest_from-least :
      (u : ℕ) (best : Best R) (pole : PoleInfo R) (ds : List (PoleInfo R)) (i : ℕ) (d : PoleInfo R)
      → lt (distance_between pole d) (distance_between pole d) ≡ false
      → get_elem? ds i ≡ some d
      → d.is_used ≡ false
      → lt (distance_between pole d) (nearest_from u best pole ds).distance ≡ false
  nearest_from-least u best pole [] i d irrefl e free = ground arith
  nearest_from-least u best pole (x ∷ ds) zero d irrefl e free = rw (some-injective _ _ e) (
      rw (nearest_from-cons u best pole d ds) (
        nearest_from-keeps (u + 1) (better u best pole d) pole ds (distance_between pole d)
          (better_self u best pole d irrefl free)))
  nearest_from-least u best pole (x ∷ ds) (suc i) d irrefl e free =
      rw (nearest_from-cons u best pole x ds)
        (nearest_from-least (u + 1) (better u best pole x) pole ds i d irrefl e free)

  -- If `<` is transitive, a pole is matched to a nearest one of the detections that are free: no free
  -- detection whose distance is a number is strictly nearer.
  pub match_pole_nearest :
      (c : PoleParams R) (pole : PoleInfo R) (ds : List (PoleInfo R)) (k : ℕ) (m : PoleInfo R)
      → match_pole c pole ds ≡ some (record { num = k; pole = m })
      → (i : ℕ) (d : PoleInfo R) → get_elem? ds i ≡ some d
      → d.is_used ≡ false
      → lt (distance_between pole d) (distance_between pole d) ≡ false
      → lt (distance_between pole d) (distance_between pole m) ≡ false
  match_pole_nearest c pole ds k m h i d e free irrefl =
      let it = match_pole-IsMatch c pole ds k m h in
      rw (← it.best) (
        unfold nearest in
        nearest_from-least 0 (record { distance = dec 1000 0; num = none }) pole ds i d irrefl e
          free)
