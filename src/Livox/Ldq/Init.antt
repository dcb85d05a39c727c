-- ===== src/Livox/Ldq/Init.antt =====
-- The size that a queue gets.
use native.Mathlib.Decide.{ℕ_discrete}
use firt_version_ws.Prelude.{
  ℕ, zero, suc, ◌+◌, ◌-◌, ◌^◌, ◌≤◌, ◌<◌, true, ◌≡◌, refl, arith, inl, inr, Bool-cases, leb, and32,
  and_bits-pred, ◌⊎◌,
}
use firt_version_ws.Livox.Ldq.{is_power_of_2, roundup_from, roundup_power_of_2, queue_size_for}

-- A power of two that a uint32_t holds.
pub record IsSize (size : ℕ) : Type 0 where
  pub exponent : ℕ
  pub small : exponent ≤ 31
  pub power : size ≡ 2 ^ exponent

is_power_of_2-IsSize : (size : ℕ) → size < 2 ^ 32 → is_power_of_2 size ≡ true → IsSize size
unfolding is_power_of_2
is_power_of_2-IsSize size h e =
    let masked : and32 size (size - 1) ≡ 0 = ground arith in
    let (k, l, p) = and_bits-pred 32 size (ground arith) h masked in
    record { exponent = k; small = omega arith; power = p }

-- The loop returns the first power that is large enough, and the last one if none is.
roundup_from-IsSize :
    (rounds i last size : ℕ)
    → rounds + i ≡ 32
    → 0 < rounds ⊎ IsSize last
    → IsSize (roundup_from rounds i last size)
      × (size ≤ 2 ^ 31 → 0 < rounds → size ≤ roundup_from rounds i last size)
unfolding roundup_from
roundup_from-IsSize zero i last size e (inl l) = elim l [ ]
roundup_from-IsSize zero i last size e (inr s) = (s, λ h l. elim l [ ])
roundup_from-IsSize (suc rounds) i last size e h = elim (Bool-cases (leb size (2 ^ i))) [
  | inl fits ↦
      let here : IsSize (2 ^ i) = record { exponent = i; small = omega arith; power = refl } in
      rw fits (here, λ k l. ground (arith, fits))
  | inr large ↦
      let here : IsSize (2 ^ i) = record { exponent = i; small = omega arith; power = refl } in
      let (s, k) = roundup_from-IsSize rounds (i + 1) (2 ^ i) size (omega arith) (inr here) in
      rw large (
        s,
        λ b l. elim (ℕ_discrete rounds 0) [
          | yes last_round ↦
              let at_31 : i ≡ 31 = omega arith in absurd (ground (arith, rw at_31 at large))
          | no more ↦ k b (omega arith)
        ],
      )
]

-- Every queue gets a size that is a power of two, and at least the size asked for if that is at most
-- 2^31.
pub queue_size_for-IsSize :
    (queue_size : ℕ)
    → queue_size < 2 ^ 32
    → IsSize (queue_size_for queue_size)
      × (queue_size ≤ 2 ^ 31 → queue_size ≤ queue_size_for queue_size)
unfolding queue_size_for roundup_power_of_2
queue_size_for-IsSize queue_size h = elim (Bool-cases (is_power_of_2 queue_size)) [
  | inl power ↦ rw power (is_power_of_2-IsSize queue_size h power, λ l. omega arith)
  | inr other ↦
      let (s, k) = roundup_from-IsSize 32 0 0 queue_size (omega arith) (inl (omega arith)) in
      rw other (s, λ l. k l (omega arith))
]
