-- ===== src/Prelude/Words.antt =====
-- Unsigned machine words of up to 32 bits, as numbers that wrap.
use Prim.Native.Nat.{ℕ, zero, suc, ◌+◌, ◌-◌, ◌*◌, ◌/◌, ◌%◌, ◌^◌, ◌<◌, ◌≤◌, ◌∣◌}
use mathlib.Core.Path.{◌≡◌, refl, sym, subst}
use native.Mathlib.Decide.{ℕ_discrete}
use native.Mathlib.Omega.{arith}
use native.Mathlib.Nat.{mod-one, add-zero, add-suc, dvd_refl, dvd-mul_left_of_dvd}

abbrev pub add32 : ℕ → ℕ → ℕ
add32 a b = (a + b) % 2 ^ 32

abbrev pub sub32 : ℕ → ℕ → ℕ
sub32 a b = (a + 2 ^ 32 - b) % 2 ^ 32

-- The first n bits of a and b, both of them set.
unfoldable pub and_bits : ℕ → ℕ → ℕ → ℕ
and_bits zero a b = 0
and_bits (suc n) a b = a % 2 * (b % 2) + 2 * and_bits n (a / 2) (b / 2)

-- a & b
abbrev pub and32 : ℕ → ℕ → ℕ
and32 a b = and_bits 32 a b

and_bits-zero : (n a : ℕ) → and_bits n a 0 ≡ 0
unfolding and_bits
and_bits-zero zero a = refl
and_bits-zero (suc n) a = omega (arith, and_bits-zero n (a / 2))

-- The bits 4 and 5.
pub and32-bits_4_5 : (a : ℕ) → and32 a 0x30 ≡ 16 * (a / 16 % 2) + 32 * (a / 32 % 2)
unfolding and_bits
and32-bits_4_5 a = omega (arith, and_bits-zero 26 (a / 64))

pub pow-pos : (k : ℕ) → 0 < 2 ^ k
pow-pos zero = omega arith
pow-pos (suc k) = omega (arith, pow-pos k)

-- A number by its lowest bit and the rest, modulo an even number.
mod-double : (a m : ℕ) → 0 < m → a % (2 * m) ≡ a % 2 + 2 * (a / 2 % m)
mod-double a m h = grind arith

-- The mask of k ones.
pub and_bits-mask : (n k a : ℕ) → k ≤ n → and_bits n a (2 ^ k - 1) ≡ a % 2 ^ k
unfolding and_bits
and_bits-mask n zero a h = omega (arith, and_bits-zero n a, mod-one a)
and_bits-mask zero (suc k) a h = absurd (omega arith)
and_bits-mask (suc n) (suc k) a h =
    let one : (2 ^ suc k - 1) % 2 ≡ 1 = omega (arith, pow-pos k) in
    let half : (2 ^ suc k - 1) / 2 ≡ 2 ^ k - 1 = omega (arith, pow-pos k) in
    let double : 2 ^ suc k ≡ 2 * 2 ^ k = omega arith in
    rw (one, half, and_bits-mask n k (a / 2) (omega arith), double)
      (omega (arith, mod-double a (2 ^ k) (pow-pos k)))

square-bit : (a : ℕ) → a % 2 * (a % 2) ≡ a % 2
square-bit a = elim (ℕ_discrete (a % 2) 0) [
  | yes even ↦ rw even refl
  | no odd ↦ let one : a % 2 ≡ 1 = omega arith in rw one refl
]

and_bits_self : (n a : ℕ) → a < 2 ^ n → and_bits n a a ≡ a
unfolding and_bits
and_bits_self zero a h = omega arith
and_bits_self (suc n) a h =
    let rest = and_bits_self n (a / 2) (omega arith) in grind (arith, rest, square-bit a)

-- size & (size - 1) clears the lowest bit that is set: nothing is left of a power of two only.
pub and_bits-pred :
    (n size : ℕ)
    → 0 < size
    → size < 2 ^ n
    → and_bits n size (size - 1) ≡ 0
    → (k : ℕ) × (k < n) × (size ≡ 2 ^ k)
unfolding and_bits
and_bits-pred zero size pos h e = absurd (omega arith)
and_bits-pred (suc n) size pos h e = elim (ℕ_discrete (size % 2) 0) [
  | yes even ↦
      let below : (size - 1) / 2 ≡ size / 2 - 1 = omega arith in
      let rest : and_bits n (size / 2) (size / 2 - 1) ≡ 0 = rw (← below) (omega (arith, even)) in
      let (k, l, p) = and_bits-pred n (size / 2) (omega arith) (omega arith) rest in
      (suc k, omega arith, omega arith)
  | no odd ↦
      let below : (size - 1) / 2 ≡ size / 2 = omega arith in
      let same = and_bits_self n (size / 2) (omega arith) in
      let none_left : and_bits n (size / 2) ((size - 1) / 2) ≡ 0 = omega arith in
      (0, omega arith, omega (arith, same, rw below at none_left))
]

pub pow-dvd : (k j : ℕ) → 2 ^ k ∣ 2 ^ (k + j)
pow-dvd k zero = subst (λ n. 2 ^ k ∣ 2 ^ n) (sym (add-zero k)) (dvd_refl (2 ^ k))
pow-dvd k (suc j) =
    let double : 2 * 2 ^ (k + j) ≡ 2 ^ (k + suc j) = rw add-suc (omega arith) in
    subst (λ n. 2 ^ k ∣ n) double (dvd-mul_left_of_dvd (2 ^ k) (pow-dvd k j) 2)
