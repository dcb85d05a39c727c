-- ===== src/Livox/Settings/Handshake.antt =====
-- The callbacks of one lidar in turn: the requests, and then its answers.
use firt_version_ws.Prelude.{
  ℕ, ◌≡◌, refl, false, ◌||◌, if◌then◌else◌, Option, some, List, [], ◌∷◌, ◌>>=◌, get_elem?, set,
  get_elem?-set,
}
use firt_version_ws.Livox.Data.{livox_lidar_type}
use firt_version_ws.Livox.Cache.{get_index}
use firt_version_ws.Livox.Lds.{LidarDevice, Lds, sampling}
use firt_version_ws.Livox.Settings.{
  Setting, success, is_absent, value_of, acknowledge, configure_device, get_lidar_device,
  lidar_info_change_callback, set_setting_callback,
}
use firt_version_ws.Livox.Settings.Laws.{
  member, for_all, acknowledge_all, configure_device-sampling,
}

module _ {R : Type 0} where
  -- The callbacks of the answers, each a success.
  unfoldable pub answer_all : List Setting → ℕ → Lds R → Option (Lds R)
  answer_all [] handle s = some s
  answer_all (a ∷ acks) handle s = do
    answered ← set_setting_callback a success handle s
    answer_all acks handle answered.1

  unfoldable pub handshake : List Setting → ℕ → Lds R → Option (Lds R)
  handshake acks handle s = do
    asked ← lidar_info_change_callback handle s
    answer_all acks handle asked.1

  -- The lidar has the device at the index.
  record Found (handle index : ℕ) (device : LidarDevice R) (s : Lds R) : Type 0 where
    place : get_index livox_lidar_type handle s.cache_index ≡ some index
    there : get_elem? s.lidars index ≡ some device

  Found-set :
      (handle index : ℕ) (device new : LidarDevice R) (s : Lds R)
      → Found handle index device s
      → Found handle index new (record s { lidars = set s.lidars index new })
  Found-set handle index device new s f = record {
    place = f.place;
    there = get_elem?-set s.lidars index new f.there;
  }

  get_lidar_device-Found :
      (handle index : ℕ) (device : LidarDevice R) (s : Lds R)
      → Found handle index device s
      → get_lidar_device handle s ≡ some (some (index, device))
  unfolding get_lidar_device
  get_lidar_device-Found handle index device s f = rw (get_lidar_device, f.place, f.there) refl

  answer_all-Found :
      (acks : List Setting) (handle index : ℕ) (device : LidarDevice R) (s : Lds R)
      → Found handle index device s
      → (s' : Lds R) × (answer_all acks handle s ≡ some s')
        × Found handle index (acknowledge_all acks device) s'
  unfolding answer_all set_setting_callback acknowledge_all
  answer_all-Found [] handle index device s f = (s, refl, f)
  answer_all-Found (a ∷ acks) handle index device s f =
      let new = acknowledge a device in
      let (s', e, g) =
        answer_all-Found acks handle index new (record s { lidars = set s.lidars index new })
          (Found-set handle index device new s f) in
      (s', rw (get_lidar_device-Found handle index device s f) e, g)

  -- For a lidar whose device has no setting open and at least one setting that is not -1, the
  -- callback of a change and then callbacks of success in any order run, and in the end the device
  -- samples if every setting that is not -1 is among them, and else is in the state that it was in.
  pub handshake-sampling :
      (acks : List Setting) (handle index : ℕ) (device : LidarDevice R) (s : Lds R) (b : Setting)
      → get_index livox_lidar_type handle s.cache_index ≡ some index
      → get_elem? s.lidars index ≡ some device
      → device.livox_config.set_bits ≡ 0
      → is_absent (value_of b device.livox_config) ≡ false
      → (s' : Lds R) × (device' : LidarDevice R) × (handshake acks handle s ≡ some s')
        × (get_elem? s'.lidars index ≡ some device')
        × (device'.connect_state ≡ (
            if for_all (λ t. is_absent (value_of t device.livox_config) || member t acks)
            then sampling
            else device.connect_state))
  unfolding handshake lidar_info_change_callback
  handshake-sampling acks handle index device s b place there z present =
      let f : Found handle index device s = record { place = place; there = there } in
      let asked = (configure_device handle device).1 in
      let (s', e, g) =
        answer_all-Found acks handle index asked (record s { lidars = set s.lidars index asked })
          (Found-set handle index device asked s f) in
      (
        s',
        acknowledge_all acks asked,
        rw (get_lidar_device-Found handle index device s f) e,
        g.there,
        configure_device-sampling handle device acks b z present,
      )
