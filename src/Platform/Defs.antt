-- ===== src/Platform/Defs.antt =====
-- The operations that the flight code takes from <cmath>, rclcpp and tf2, and their notation.
use firt_version_ws.Prelude.{ℕ, Bool, if◌then◌else◌}

-- geometry_msgs/Quaternion.
pub record Quaternion (R : Type 0) : Type 0 where
  pub qx : R
  pub qy : R
  pub qz : R
  pub qw : R

-- The three numbers that `getRPY` writes.
pub record Rpy (R : Type 0) : Type 0 where
  pub roll : R
  pub pitch : R
  pub yaw : R

pub record Platform (R : Type 0) : Type 0 where
  -- the literal n * 10 ^ -k
  pub dec : ℕ → ℕ → R
  pub pi : R
  pub add : R → R → R
  pub sub : R → R → R
  pub mul : R → R → R
  pub div : R → R → R
  pub neg : R → R
  pub abs : R → R
  pub sqrt : R → R
  pub sin : R → R
  pub cos : R → R
  pub lt : R → R → Bool
  pub le : R → R → Bool
  -- conversion to `float` and back to `double`
  pub to_float : R → R
  -- `(a - b).seconds()` of two clock readings, counted in nanoseconds
  pub seconds : ℕ → ℕ → R
  -- tf2's `setRPY` and `getRPY`
  pub set_rpy : R → R → R → Quaternion R
  pub get_rpy : Quaternion R → Rpy R

module _ {R : Type 0} ⦃p : Platform R⦄ where
  infixl 65 ◌⊕◌ ◌⊖◌
  infixl 70 ◌⊗◌ ◌⊘◌
  abbrev pub ◌⊕◌ : R → R → R
  ◌⊕◌ = p.add

  abbrev pub ◌⊖◌ : R → R → R
  ◌⊖◌ = p.sub

  abbrev pub ◌⊗◌ : R → R → R
  ◌⊗◌ = p.mul

  abbrev pub ◌⊘◌ : R → R → R
  ◌⊘◌ = p.div

  abbrev pub dec : ℕ → ℕ → R
  dec = p.dec

  abbrev pub neg : R → R
  neg = p.neg

  abbrev pub lt : R → R → Bool
  lt = p.lt

  abbrev pub le : R → R → Bool
  le = p.le

  -- std::clamp(v, lo, hi), std::min(a, b) and std::max(a, b), by their definitions.
  abbrev pub clamp : R → R → R → R
  clamp v lo hi = if lt v lo then lo else if lt hi v then hi else v

  abbrev pub min_of : R → R → R
  min_of a b = if lt b a then b else a

  abbrev pub max_of : R → R → R
  max_of a b = if lt a b then b else a

  -- sqrt(x * x + y * y + z * z)
  abbrev pub norm : R → R → R → R
  norm x y z = p.sqrt (x ⊗ x ⊕ y ⊗ y ⊕ z ⊗ z)
