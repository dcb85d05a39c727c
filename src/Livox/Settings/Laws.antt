-- ===== src/Livox/Settings/Laws.antt =====
-- A device samples once every setting that was asked for is answered.
use firt_version_ws.Prelude.{
  ℕ, ◌<◌, ◌≡◌, refl, sym, ap, ◌∙◌, Bool, true, false, not, ◌&&◌, ◌||◌, if◌then◌else◌, List, [], ◌∷◌,
  arith, ◌==◌, inl, inr, Bool-cases, if_true, if_false,
}
use firt_version_ws.Livox.Lds.{LidarDevice, sampling}
use firt_version_ws.Livox.Settings.{
  Setting, data_type, scan_pattern, blind_spot, dual_emit, weight, clear_bit, is_absent, value_of,
  request_settings, acknowledge, configure_device,
}
use firt_version_ws.Livox.Settings.Bits.{
  pending, same, pending-clear, asked-small, asked-pending, pending-pos, request_settings-bits,
}

abbrev pub member : Setting → List Setting → Bool
member b [] = false
member b (a ∷ acks) = same b a || member b acks

abbrev answered : ℕ → List Setting → Setting → Bool
answered bits acks b = not (pending b bits) || member b acks

abbrev pub for_all : (Setting → Bool) → Bool
for_all f = f data_type && (f scan_pattern && (f blind_spot && f dual_emit))

for_all-cong : (f g : Setting → Bool) → ((b : Setting) → f b ≡ g b) → for_all f ≡ for_all g
for_all-cong f g h = rw (h data_type, h scan_pattern, h blind_spot, h dual_emit) refl

is_zero : (n : ℕ) → (n == 0) ≡ true → n ≡ 0
is_zero n h = ground (arith, h)

is_pos : (n : ℕ) → (n == 0) ≡ false → 0 < n
is_pos n h = ground (arith, h)

or-true : (b : Bool) → (b || true) ≡ true
or-true true = refl
or-true false = refl

not_answered : (bits : ℕ) → bits < 16 → 0 < bits → for_all (answered bits []) ≡ false
not_answered bits h busy = ground (arith, h, busy)

clear_bit-zero : (a : Setting) → clear_bit (weight a) 0 ≡ 0
unfolding clear_bit
clear_bit-zero data_type = refl
clear_bit-zero scan_pattern = refl
clear_bit-zero blind_spot = refl
clear_bit-zero dual_emit = refl

answered-clear :
    (bits : ℕ) (a : Setting) (acks : List Setting) (b : Setting)
    → bits < 16
    → answered (clear_bit (weight a) bits) acks b ≡ answered bits (a ∷ acks) b
answered-clear bits a acks b h =
    let (e, l) = pending-clear b a bits h in
    elim (Bool-cases (same b a)) [
      | inl this ↦
          let clear : pending b (clear_bit (weight a) bits) ≡ false = e ∙ if_true _ _ this in
          rw (clear, this) (sym (or-true (not (pending b bits))))
      | inr other ↦
          let kept : pending b (clear_bit (weight a) bits) ≡ pending b bits =
            e ∙ if_false _ _ other in
          rw (kept, other) refl
    ]

module _ {R : Type 0} where
  -- The answers that arrive.
  unfoldable pub acknowledge_all : List Setting → LidarDevice R → LidarDevice R
  acknowledge_all [] d = d
  acknowledge_all (a ∷ acks) d = acknowledge_all acks (acknowledge a d)

  stays-sampling :
      (acks : List Setting) (d : LidarDevice R)
      → d.livox_config.set_bits ≡ 0
      → d.connect_state ≡ sampling
      → (acknowledge_all acks d).connect_state ≡ sampling
  unfolding acknowledge_all acknowledge
  stays-sampling [] d z e = e
  stays-sampling (a ∷ acks) d z e =
      let clear : clear_bit (weight a) d.livox_config.set_bits ≡ 0 =
        ap (clear_bit (weight a)) z ∙ clear_bit-zero a in
      stays-sampling acks (acknowledge a d) clear (rw clear refl)

  acknowledge_all-state :
      (acks : List Setting) (d : LidarDevice R)
      → d.livox_config.set_bits < 16
      → 0 < d.livox_config.set_bits
      → (acknowledge_all acks d).connect_state
        ≡ (if for_all (answered d.livox_config.set_bits acks) then sampling else d.connect_state)
  unfolding acknowledge_all acknowledge
  acknowledge_all-state [] d small busy = rw (not_answered d.livox_config.set_bits small busy) refl
  acknowledge_all-state (a ∷ acks) d small busy =
      let bits = d.livox_config.set_bits in
      let bits' = clear_bit (weight a) bits in
      let less = (pending-clear a a bits small).1 in
      let done : for_all (answered bits' acks) ≡ for_all (answered bits (a ∷ acks)) =
        for_all-cong (answered bits' acks) (answered bits (a ∷ acks))
          (λ b. answered-clear bits a acks b small) in
      elim (Bool-cases (bits' == 0)) [
        | inl clear ↦
            let z : bits' ≡ 0 = is_zero bits' clear in
            stays-sampling acks (acknowledge a d) z (rw clear refl) ∙ rw (← done, z) refl
        | inr some_left ↦
            let more : 0 < bits' = is_pos bits' some_left in
            acknowledge_all-state acks (acknowledge a d) less more ∙ rw (done, some_left) refl
      ]

not-not : (b : Bool) → not (not b) ≡ b
not-not true = refl
not-not false = refl

module _ {R : Type 0} where
  -- When the driver configures a device that has no setting open and at least one setting that is
  -- not -1, and answers of success arrive in any order, the device samples if every setting that is
  -- not -1 is among them, and else is in the state that it was in.
  pub configure_device-sampling :
      (handle : ℕ) (device : LidarDevice R) (acks : List Setting) (b : Setting)
      → device.livox_config.set_bits ≡ 0
      → is_absent (value_of b device.livox_config) ≡ false
      → (acknowledge_all acks (configure_device handle device).1).connect_state ≡ (
          if for_all (λ s. is_absent (value_of s device.livox_config) || member s acks)
          then sampling
          else device.connect_state)
  unfolding configure_device
  configure_device-sampling handle device acks b z present =
      let c = device.livox_config in
      let bits = (request_settings handle c).1.set_bits in
      let e = request_settings-bits handle c z in
      let waits : (s : Setting) → pending s bits ≡ not (is_absent (value_of s c)) =
        λ s. ap (pending s) e ∙ asked-pending s (λ t. is_absent (value_of t c)) in
      let small : bits < 16 = rw e (asked-small (λ t. is_absent (value_of t c))) in
      let some_open : 0 < bits = pending-pos b bits (waits b ∙ ap not present) in
      acknowledge_all-state acks (configure_device handle device).1 small some_open
      ∙ ap (λ x. if x then sampling else device.connect_state)
          (for_all-cong (answered bits acks) (λ s. is_absent (value_of s c) || member s acks)
            (λ s.
              ap (λ x. not x || member s acks) (waits s)
              ∙ ap (λ x. x || member s acks) (not-not (is_absent (value_of s c)))))
