-- ===== src/Livox/Init/Laws.antt =====
-- The whole start of the driver, and what a lidar's answers lead to after it.
use mathlib.Core.Option.{some-injective}
use firt_version_ws.Prelude.{
  ℕ, ◌+◌, ◌≤◌, Bool, true, false, ◌||◌, ◌≡◌, refl, ap, ◌∙◌, none, some, List, [], ◌∷◌, All, arith,
  get_elem?, get_or-replicate, length, All-get_elem?, if_true, if_false, ℤ, String, subst,
}
use firt_version_ws.Platform.{Platform}
use firt_version_ws.Livox.Data.{livox_lidar_type}
use firt_version_ws.Livox.Cache.{get_index, new_cache_index}
use firt_version_ws.Livox.Lds.{LidarDevice, Lds, sampling}
use firt_version_ws.Livox.Config.{Json, ParsedConfig, parse_summary_info, parse}
use firt_version_ws.Livox.Config.Laws.{parse-set_bits}
use firt_version_ws.Livox.Settings.{Setting, is_absent, value_of}
use firt_version_ws.Livox.Settings.Laws.{member, for_all}
use firt_version_ws.Livox.Settings.Handshake.{handshake, handshake-sampling}
use firt_version_ws.Livox.Init.{
  LdsLidar, Outside, new_lds, is_livox_lidar, init_livox_lidar, init_lidars, set_lidar_pub_handle,
  start, init_lds_lidar,
}
use firt_version_ws.Livox.Init.Devices.{
  IsPartly, Apart, HasDevice, handle_of, fill_in_devices-HasDevice,
}

module _ {R : Type 0} where
  new_lds-fresh :
      (publish_freq : R) (l : Lds R)
      → new_lds publish_freq ≡ some l
      → (l.cache_index ≡ new_cache_index) × (length l.lidars ≡ 32)
  unfolding new_lds
  new_lds-fresh publish_freq l h =
      let same = some-injective _ _ h in (rw (← same) refl, rw (← same) refl)

  -- No place is taken at first.
  new_lds-IsPartly :
      (publish_freq : R) (s : LdsLidar R) → new_lds publish_freq ≡ some s.lds → IsPartly 0 s
  unfolding new_cache_index
  new_lds-IsPartly publish_freq s h =
      let (cache, devices) = new_lds-fresh publish_freq s.lds h in
      record {
        filled = record {
          places = ap (λ c. length c.index_cache) cache;
          filled = λ k l. rw cache (get_or-replicate 32 k false true l ∙ ground arith);
        };
        devices = devices;
      }

  none_at_first :
      (publish_freq : R) (s : LdsLidar R)
      → new_lds publish_freq ≡ some s.lds
      → (cs : List (ParsedConfig R))
      → All (λ c. get_index livox_lidar_type (handle_of c) s.lds.cache_index ≡ none) cs
  unfolding get_index new_cache_index firt_version_ws.Livox.Cache.generate_index_key
  none_at_first publish_freq s h [] = tt
  none_at_first publish_freq s h (c ∷ cs) =
      (rw (new_lds-fresh publish_freq s.lds h).0 refl, none_at_first publish_freq s h cs)

module _ {R : Type 0} ⦃p : Platform R⦄ (j : Json R) (ip_string_to_num : String → ℕ) (value : ℤ → R)
    (cast : R → ℕ) (outside : Outside j.Value) where
  -- With devices as the constructor leaves them, a summary that names the type, an SDK that starts and
  -- a user file that is read as configs of at most 32 different lidars, the start succeeds once, and
  -- the k-th config has the device k, with no request open.
  pub init_lds_lidar-HasDevice :
      (s : LdsLidar R) (publish_freq : R) (lidar_type : ℕ) (ok : Bool) (cs : List (ParsedConfig R))
      (files : ℕ)
      → new_lds publish_freq ≡ some s.lds
      → s.is_initialized ≡ false
      → parse_summary_info j outside.summary_file s.lidar_type s.services.files
        ≡ some (true, lidar_type, s.services.files)
      → is_livox_lidar lidar_type ≡ true
      → parse j ip_string_to_num outside.user_file [] s.services.files ≡ some (ok, cs, files)
      → outside.sdk_inits ≡ true
      → length cs ≤ 32
      → Apart cs
      → (s' : LdsLidar R) × (init_lds_lidar j ip_string_to_num value cast outside s
          ≡ some (true, s'))
        × (s'.is_initialized ≡ true)
        × ((k : ℕ) (c : ParsedConfig R)
            → get_elem? cs k ≡ some c
            → HasDevice value k c s' × (c.livox_config.set_bits ≡ 0))
  unfolding init_lds_lidar init_lidars init_livox_lidar set_lidar_pub_handle start
  init_lds_lidar-HasDevice s f lidar_type ok cs files new first summary livox user sdk fits apart =
      let opened : LdsLidar R = record s {
        lidar_type = lidar_type;
        services = record s.services { files = files };
      } in
      let none_taken = new_lds-IsPartly f s new in
      let ready : IsPartly 0 opened = record {
        filled = none_taken.filled;
        devices = none_taken.devices;
      } in
      let (filled, e, found, kept) =
        fill_in_devices-HasDevice value cs 0 opened ready (omega arith) apart
          (none_at_first f s new cs) in
      let running : LdsLidar R = record filled {
        services = record filled.services { sdk_running = true; info_change_callback = true };
      } in
      let s' : LdsLidar R =
        record (set_lidar_pub_handle j ip_string_to_num value cast outside running) {
          is_initialized = true;
        } in
      (
        s',
        if_false _ _ first ∙ rw (summary, livox, user, sdk, e) refl,
        refl,
        λ k c at.
            let place : 0 + k ≡ k = omega arith in
            let h = subst (λ i. HasDevice value i c filled) place (found k c at) in
            (
              record {
                place = h.place;
                device = h.device;
                there = h.there;
                lidar_type = h.lidar_type;
                handle = h.handle;
                livox_config = h.livox_config;
                extrinsics = h.extrinsics;
              },
              All-get_elem? _ cs k
                  (parse-set_bits j ip_string_to_num outside.user_file s.services.files user) at,
            ),
      )

  -- After such a start, in which some setting b of the k-th config is not -1: if the SDK reports the
  -- lidar and then a success for settings in any order, every setting that is not -1 among them, the
  -- callbacks run and leave the lidar's device sampling.
  pub init_lds_lidar-handshake :
      (s : LdsLidar R) (publish_freq : R) (lidar_type : ℕ) (ok : Bool) (cs : List (ParsedConfig R))
      (files : ℕ)
      → new_lds publish_freq ≡ some s.lds
      → s.is_initialized ≡ false
      → parse_summary_info j outside.summary_file s.lidar_type s.services.files
        ≡ some (true, lidar_type, s.services.files)
      → is_livox_lidar lidar_type ≡ true
      → parse j ip_string_to_num outside.user_file [] s.services.files ≡ some (ok, cs, files)
      → outside.sdk_inits ≡ true
      → length cs ≤ 32
      → Apart cs
      → (k : ℕ) (c : ParsedConfig R) (acks : List Setting) (b : Setting) → get_elem? cs k ≡ some c
      → is_absent (value_of b c.livox_config) ≡ false
      → for_all (λ t. is_absent (value_of t c.livox_config) || member t acks) ≡ true
      → (s' : LdsLidar R) × (l : Lds R) × (device : LidarDevice R) × (init_lds_lidar j
            ip_string_to_num value cast outside s
          ≡ some (true, s'))
        × (handshake acks (handle_of c) s'.lds ≡ some l)
        × (get_elem? l.lidars k ≡ some device)
        × (device.connect_state ≡ sampling)
  init_lds_lidar-handshake s f lidar_type ok cs files new first summary livox user sdk fits apart k
        c acks b at present answered =
      let (s', e, _, devices) =
        init_lds_lidar-HasDevice s f lidar_type ok cs files new first summary livox user sdk fits
          apart in
      let (h, no_bits) = devices k c at in
      let config_is = h.livox_config in
      let (l, device, runs, there, state) =
        handshake-sampling acks (handle_of c) k h.device s'.lds b h.place h.there
          (ap (λ u. u.set_bits) config_is ∙ no_bits)
          (ap (λ u. is_absent (value_of b u)) config_is ∙ present) in
      let complete =
        ap (λ u. for_all (λ t. is_absent (value_of t u) || member t acks)) config_is ∙ answered in
      (s', l, device, e, runs, there, state ∙ if_true _ _ complete)
