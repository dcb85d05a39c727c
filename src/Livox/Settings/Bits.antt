-- ===== src/Livox/Settings/Bits.antt =====
-- The bits of the settings that wait for an answer.
use firt_version_ws.Prelude.{
  ℕ, ◌/◌, ◌%◌, ◌<◌, ◌≡◌, refl, ◌∙◌, Bool, true, false, not, if◌then◌else◌, List, [], arith, ◌==◌,
  inl, inr, Bool-cases,
}
use firt_version_ws.Livox.Lds.{UserLivoxLidarConfig}
use firt_version_ws.Livox.Settings.{
  Command, Setting, data_type, scan_pattern, blind_spot, dual_emit, weight, set_bit, clear_bit,
  is_absent, value_of, request_setting, request_settings,
}

-- Whether a setting waits for its answer.
abbrev pub pending : Setting → ℕ → Bool
pending b bits = not (bits / weight b % 2 == 0)

abbrev pub same : Setting → Setting → Bool
same b c = weight b == weight c

pub pending-clear :
    (b c : Setting) (bits : ℕ)
    → bits < 16
    → (pending b (clear_bit (weight c) bits) ≡ (if same b c then false else pending b bits))
      × (clear_bit (weight c) bits < 16)
unfolding clear_bit
pending-clear data_type data_type bits h = (ground arith, ground arith)
pending-clear data_type scan_pattern bits h = (ground arith, ground arith)
pending-clear data_type blind_spot bits h = (ground arith, ground arith)
pending-clear data_type dual_emit bits h = (ground arith, ground arith)
pending-clear scan_pattern data_type bits h = (ground arith, ground arith)
pending-clear scan_pattern scan_pattern bits h = (ground arith, ground arith)
pending-clear scan_pattern blind_spot bits h = (ground arith, ground arith)
pending-clear scan_pattern dual_emit bits h = (ground arith, ground arith)
pending-clear blind_spot data_type bits h = (ground arith, ground arith)
pending-clear blind_spot scan_pattern bits h = (ground arith, ground arith)
pending-clear blind_spot blind_spot bits h = (ground arith, ground arith)
pending-clear blind_spot dual_emit bits h = (ground arith, ground arith)
pending-clear dual_emit data_type bits h = (ground arith, ground arith)
pending-clear dual_emit scan_pattern bits h = (ground arith, ground arith)
pending-clear dual_emit blind_spot bits h = (ground arith, ground arith)
pending-clear dual_emit dual_emit bits h = (ground arith, ground arith)

abbrev pub set_if : Bool → ℕ → ℕ → ℕ
set_if absent w bits = if absent then bits else set_bit w bits

-- What the settings set, each unless it is absent.
abbrev pub asked : (Setting → Bool) → ℕ
asked absent =
    set_if (absent dual_emit) 8 (
      set_if (absent blind_spot) 4 (set_if (absent scan_pattern) 2 (set_if (absent data_type) 1 0)))

pub asked-small : (absent : Setting → Bool) → asked absent < 16
unfolding set_bit
asked-small absent = ground arith

pub asked-pending :
    (s : Setting) (absent : Setting → Bool) → pending s (asked absent) ≡ not (absent s)
unfolding set_bit
asked-pending data_type absent = ground arith
asked-pending scan_pattern absent = ground arith
asked-pending blind_spot absent = ground arith
asked-pending dual_emit absent = ground arith

pub pending-pos : (b : Setting) (bits : ℕ) → pending b bits ≡ true → 0 < bits
pending-pos data_type bits h = ground (arith, h)
pending-pos scan_pattern bits h = ground (arith, h)
pending-pos blind_spot bits h = ground (arith, h)
pending-pos dual_emit bits h = ground (arith, h)

value_of-bits :
    (t : Setting) (c : UserLivoxLidarConfig) (n : ℕ)
    → value_of t (record c { set_bits = n }) ≡ value_of t c
unfolding value_of
value_of-bits data_type c n = refl
value_of-bits scan_pattern c n = refl
value_of-bits blind_spot c n = refl
value_of-bits dual_emit c n = refl

module _ (handle : ℕ) where
  request_setting-bits :
      (b : Setting) (st : List Command × UserLivoxLidarConfig)
      → (request_setting handle b st).1.set_bits
        ≡ set_if (is_absent (value_of b st.1)) (weight b) st.1.set_bits
  unfolding request_setting
  request_setting-bits b st = elim (Bool-cases (is_absent (value_of b st.1))) [
    | inl absent ↦ rw absent refl
    | inr present ↦ rw present refl
  ]

  request_setting-value :
      (b t : Setting) (st : List Command × UserLivoxLidarConfig)
      → value_of t (request_setting handle b st).1 ≡ value_of t st.1
  unfolding request_setting
  request_setting-value b t st = elim (Bool-cases (is_absent (value_of b st.1))) [
    | inl absent ↦ rw absent refl
    | inr present ↦ rw present (value_of-bits t st.1 _)
  ]

  -- The bits that are set, when none was before.
  pub request_settings-bits :
      (c : UserLivoxLidarConfig)
      → c.set_bits ≡ 0
      → (request_settings handle c).1.set_bits ≡ asked (λ t. is_absent (value_of t c))
  unfolding request_settings
  request_settings-bits c z =
      let st1 = request_setting handle data_type ([], c) in
      let st2 = request_setting handle scan_pattern st1 in
      let st3 = request_setting handle blind_spot st2 in
      let v1 : (t : Setting) → value_of t st1.1 ≡ value_of t c =
        λ t. request_setting-value data_type t ([], c) in
      let v2 : (t : Setting) → value_of t st2.1 ≡ value_of t c =
        λ t. request_setting-value scan_pattern t st1 ∙ v1 t in
      let v3 : (t : Setting) → value_of t st3.1 ≡ value_of t c =
        λ t. request_setting-value blind_spot t st2 ∙ v2 t in
      rw
        (
          request_setting-bits dual_emit st3,
          v3 dual_emit,
          request_setting-bits blind_spot st2,
          v2 blind_spot,
          request_setting-bits scan_pattern st1,
          v1 scan_pattern,
          request_setting-bits data_type ([], c),
          z,
        )
        refl
