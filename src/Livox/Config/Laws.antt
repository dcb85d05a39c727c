-- ===== src/Livox/Config/Laws.antt =====
-- What is read from the configuration file.
use mathlib.Core.Option.{some-injective}
use firt_version_ws.Prelude.{
  ℕ, ◌-◌, ◌<◌, ◌^◌, ◌%◌, Bool, true, if◌then◌else◌, ◌≡◌, refl, sym, ap, ◌∙◌, inl, inr, Bool-cases,
  Option, none, some, List, [], ◌∷◌, All, arith, ltb, >>=-eq-some, ℤ, pos, negsuc, String,
}
use firt_version_ws.Platform.{Platform}
use firt_version_ws.Livox.Config.{
  Json, ConfigExtrinsics, ParsedConfig, parsed, missing, parse_error, File, to_uint8, to_int8,
  member_or, int_setting, no_extrinsics, parse_extrinsics, parse_user_config, configs_of,
  parse_user_configs, parse_array, parse,
}

to_int8-pos : (n : ℕ) → n < 256 → to_int8 (pos n) ≡ (if ltb n 128 then pos n else negsuc (255 - n))
unfolding to_int8 to_uint8
to_int8-pos n h = let small : n % 2 ^ 8 ≡ n = omega arith in rw small refl

module _ {R : Type 0} ⦃p : Platform R⦄ (j : Json R) (ip_string_to_num : String → ℕ) where
  abbrev extrinsic_setting : j.Value → Option (ConfigExtrinsics R)
  extrinsic_setting v =
      member_or j (parse_extrinsics j ip_string_to_num) (no_extrinsics j ip_string_to_num) v
        "extrinsic_parameter"

  abbrev dual_emit_setting : j.Value → Option ℤ
  dual_emit_setting v = int_setting j (λ n. to_int8 (pos (to_uint8 n))) v "dual_emit_en"

  -- The fields of a config that is read, in terms of the file.
  record Fields (v : j.Value) (c : ParsedConfig R) : Type 0 where
    blind_spot : int_setting j to_int8 v "blind_spot_set" ≡ some c.livox_config.blind_spot_set
    extrinsic : extrinsic_setting v ≡ some c.extrinsic_param
    no_bits : c.livox_config.set_bits ≡ 0

  parse_user_config-Fields :
      (v : j.Value) (c : ParsedConfig R)
      → parse_user_config j ip_string_to_num v ≡ some c
      → Fields v c
  unfolding parse_user_config
  parse_user_config-Fields v c h =
      let (ip, e0, h0) = >>=-eq-some (j.get_string (j.at v "ip")) _ h in
      let (data_type, e1, h1) = >>=-eq-some (int_setting j to_int8 v "pcl_data_type") _ h0 in
      let (pattern_mode, e2, h2) = >>=-eq-some (int_setting j to_int8 v "pattern_mode") _ h1 in
      let (blind_spot, e3, h3) = >>=-eq-some (int_setting j to_int8 v "blind_spot_set") _ h2 in
      let (dual_emit, e4, h4) = >>=-eq-some (dual_emit_setting v) _ h3 in
      let (extrinsic, e5, h5) = >>=-eq-some (extrinsic_setting v) _ h4 in
      let same = some-injective _ _ h5 in
      rw (← same) (record { blind_spot = e3; extrinsic = e5; no_bits = refl })

  -- The blind spot n of an entry that is read, where n is below 256, is kept if it is below 128 and
  -- becomes n - 256 if it is not.
  pub blind_spot_set_lem :
      (v : j.Value) (c : ParsedConfig R) (n : ℕ)
      → parse_user_config j ip_string_to_num v ≡ some c
      → j.has_member v "blind_spot_set" ≡ some true
      → j.get_int (j.at v "blind_spot_set") ≡ some (pos n)
      → n < 256
      → c.livox_config.blind_spot_set ≡ (if ltb n 128 then pos n else negsuc (255 - n))
  unfolding int_setting member_or
  blind_spot_set_lem v c n h there is small =
      let f = parse_user_config-Fields v c h in
      let e : some (to_int8 (pos n)) ≡ some c.livox_config.blind_spot_set =
        rw (there, is) at f.blind_spot in
      sym (some-injective _ _ e) ∙ to_int8-pos n small

  -- No request is open for a config that is read.
  configs_of-set_bits :
      (vs : List j.Value) (cs : List (ParsedConfig R))
      → configs_of j ip_string_to_num vs ≡ some cs
      → All (λ c. c.livox_config.set_bits ≡ 0) cs
  unfolding configs_of
  configs_of-set_bits [] cs h = rw (← some-injective _ _ h) tt
  configs_of-set_bits (v ∷ vs) cs h =
      let (ip, e0, h0) = >>=-eq-some (j.has_member v "ip") _ h in
      elim (Bool-cases ip) [
        | inl named ↦
            let (c, e, h1) =
              >>=-eq-some (parse_user_config j ip_string_to_num v) _ (rw named at h0) in
            let (rest, e2, h2) = >>=-eq-some (configs_of j ip_string_to_num vs) _ h1 in
            rw (← some-injective _ _ h2)
              ((parse_user_config-Fields v c e).no_bits, configs_of-set_bits vs rest e2)
        | inr other ↦ configs_of-set_bits vs cs (rw other at h0)
      ]

  parse_array-set_bits :
      (o : Option (List j.Value)) (files : ℕ) {ok : Bool} {cs : List (ParsedConfig R)} {files' : ℕ}
      → parse_array j ip_string_to_num o files ≡ some (ok, cs, files')
      → All (λ c. c.livox_config.set_bits ≡ 0) cs
  unfolding parse_array parse_user_configs
  parse_array-set_bits none files h = rw (← ap (λ r. r.1) (some-injective _ _ h)) tt
  parse_array-set_bits (some []) files h = rw (← ap (λ r. r.1) (some-injective _ _ h)) tt
  parse_array-set_bits (some (v ∷ vs)) files {cs = cs} h =
      let (r, e, h1) = >>=-eq-some (parse_user_configs j ip_string_to_num (v ∷ vs)) _ h in
      let (user_configs, e2, h2) = >>=-eq-some (configs_of j ip_string_to_num (v ∷ vs)) _ e in
      let same : user_configs ≡ cs =
        ap (λ r. r.1) (some-injective _ _ h2) ∙ ap (λ r. r.1) (some-injective _ _ h1) in
      rw (← same) (configs_of-set_bits (v ∷ vs) user_configs e2)

  -- Parse leaves the configs that it is given only if the file cannot be opened, and whatever it
  -- leaves, no request is open.
  pub parse-set_bits :
      (f : File j.Value) (files : ℕ) {ok : Bool} {cs : List (ParsedConfig R)} {files' : ℕ}
      → parse j ip_string_to_num f [] files ≡ some (ok, cs, files')
      → All (λ c. c.livox_config.set_bits ≡ 0) cs
  unfolding parse
  parse-set_bits missing files h = rw (← ap (λ r. r.1) (some-injective _ _ h)) tt
  parse-set_bits parse_error files h = rw (← ap (λ r. r.1) (some-injective _ _ h)) tt
  parse-set_bits (parsed doc) files h =
      let (configs, e, h1) = >>=-eq-some (j.has_member doc "lidar_configs") _ h in
      elim (Bool-cases configs) [
        | inl there ↦
            parse_array-set_bits (j.get_array (j.at doc "lidar_configs")) files (rw there at h1)
        | inr absent ↦ rw (← ap (λ r. r.1) (some-injective _ _ (rw absent at h1))) tt
      ]
