-- ===== src/Livox/Topics/Names.antt =====
-- With a topic for each lidar, its publishers keep to it.
use native.Mathlib.Decide.{ℕ_discrete}
use mathlib.Core.Option.{some-injective}
use mathlib.Core.List.{map}
use firt_version_ws.Prelude.{
  ℕ, zero, suc, ◌≤◌, ◌<◌, ◌^◌, true, ◌≡◌, ◌≢◌, refl, sym, ap, subst, ◌∙◌, Option, none, some, List,
  [], ◌∷◌, ◌++◌, arith, >>=-eq-some, get_elem?, get_elem?-set, get_elem?-set_ne, set, replicate,
  length,
}
use firt_version_ws.Livox.Lds.{LidarDevice, Lds}
use firt_version_ws.Livox.Topics.{
  codes, Publisher, Publishers, no_publishers, create_publisher, topic_name_of, private_from,
  private_publisher, get_current_publisher, get_current_imu_publisher, Request, points, imu,
  request, request_all, imu_msg,
}
use firt_version_ws.Livox.Topics.Laws.{
  IsAddress, topic, topic_name_of-topic, topic-injective, underlined,
}

create_publisher-topic :
    (msg_type queue_size : ℕ) (name : List ℕ) (made : Publisher)
    → create_publisher msg_type name queue_size ≡ some made
    → made.topic_name ≡ name
unfolding create_publisher
create_publisher-topic msg_type queue_size name made h = ground arith

empty_slot : (n i : ℕ) (made : Publisher) → get_elem? (replicate n none) i ≢ some (some made)
empty_slot zero i made h = cc
empty_slot (suc n) zero made h = cc
empty_slot (suc n) (suc i) made h = empty_slot n i made h

module _ {R : Type 0} (ip_num_to_string : ℕ → List ℕ) (address : IsAddress ip_num_to_string)
    (s : Lds R)
    (words : (i : ℕ) (d : LidarDevice R) → get_elem? s.lidars i ≡ some d → d.handle < 2 ^ 32) where
  -- The publisher is for the topic of the device at the index.
  abbrev IsFor : List ℕ → ℕ → Publisher → Type 0
  IsFor prefix index made =
      (d : LidarDevice R) × (get_elem? s.lidars index ≡ some d)
      × (made.topic_name ≡ topic ip_num_to_string address prefix d.handle)

  abbrev AreNamed : List ℕ → List (Option Publisher) → Type 0
  AreNamed prefix slots =
      (index : ℕ) (made : Publisher)
      → get_elem? slots index ≡ some (some made)
      → IsFor prefix index made

  module _ (msg_type : ℕ) (prefix : List ℕ) (small : length prefix ≤ 32)
      (slots : List (Option Publisher)) (named : AreNamed prefix slots) (index : ℕ)
      (created : List Publisher) where
    AreNamed-set :
        (d : LidarDevice R) (slot : Option Publisher)
        → get_elem? s.lidars index ≡ some d
        → ((made : Publisher)
            → slot ≡ some made
            → made.topic_name ≡ topic ip_num_to_string address prefix d.handle)
        → {old : Option Publisher} → get_elem? slots index ≡ some old
        → AreNamed prefix (set slots index slot)
    AreNamed-set d slot device name there i made h = elim (ℕ_discrete index i) [
      | yes same ↦
          let e : some slot ≡ some (some made) =
            sym (get_elem?-set slots index slot there)
            ∙ ap (get_elem? (set slots index slot)) same
            ∙ h in
          (d, rw (← same) device, name made (some-injective _ _ e))
      | no differ ↦ named i made (sym (get_elem?-set_ne slots index i slot differ) ∙ h)
    ]

    private_from-AreNamed :
        (old slot : Option Publisher) {slots' : List (Option Publisher)} {created' : List Publisher}
        → get_elem? slots index ≡ some old
        → private_from ip_num_to_string msg_type prefix index s slots created old
          ≡ some (slot, slots', created')
        → AreNamed prefix slots' × ((made : Publisher) → slot ≡ some made → IsFor prefix index made)
    unfolding private_from
    private_from-AreNamed (some old) slot there h =
        let e = some-injective _ _ h in
        (
          subst (AreNamed prefix) (ap (λ r. r.1) e) named,
          λ made f. named index made (there ∙ ap some (ap (λ r. r.0) e ∙ f)),
        )
    private_from-AreNamed none slot there h =
        let (d, device, h1) = >>=-eq-some (get_elem? s.lidars index) _ h in
        let (name, e1, h2) = >>=-eq-some (topic_name_of ip_num_to_string prefix d.handle) _ h1 in
        let e = some-injective _ _ h2 in
        let full : name ≡ topic ip_num_to_string address prefix d.handle = some-injective _ _ (
          sym e1
          ∙ topic_name_of-topic ip_num_to_string address prefix d.handle small
              (words index d device)) in
        let filled = create_publisher msg_type name 64 in
        let named_by : (made : Publisher)
            → filled ≡ some made
            → made.topic_name ≡ topic ip_num_to_string address prefix d.handle =
          λ made f. create_publisher-topic msg_type 64 name made f ∙ full in
        (
          subst (AreNamed prefix) (ap (λ r. r.1) e) (AreNamed-set d filled device named_by there),
          λ made f. (d, device, named_by made (ap (λ r. r.0) e ∙ f)),
        )

    private_publisher-AreNamed :
        (slot : Option Publisher) {slots' : List (Option Publisher)} {created' : List Publisher}
        → private_publisher ip_num_to_string msg_type prefix index s slots created
          ≡ some (slot, slots', created')
        → AreNamed prefix slots' × ((made : Publisher) → slot ≡ some made → IsFor prefix index made)
    unfolding private_publisher
    private_publisher-AreNamed slot h =
        let (old, there, h1) = >>=-eq-some (get_elem? slots index) _ h in
        private_from-AreNamed old slot there h1

  abbrev lidar_prefix : List ℕ
  lidar_prefix = codes "livox/lidar_"

  abbrev imu_prefix : List ℕ
  imu_prefix = codes "livox/imu_"

  -- Each private publisher is for the topic of its device.
  record AllNamed (t : Publishers) : Type 0 where
    lidars : AreNamed lidar_prefix t.private_pub
    imus : AreNamed imu_prefix t.private_imu_pub

  no_publishers-AllNamed : AllNamed no_publishers
  unfolding no_publishers
  no_publishers-AllNamed = record {
    lidars = λ i made h. absurd (empty_slot 32 i made h);
    imus = λ i made h. absurd (empty_slot 32 i made h);
  }

  module _ (transfer_format : ℕ) where
    abbrev prefix_of : Request → List ℕ
    prefix_of (points index) = lidar_prefix
    prefix_of (imu index) = imu_prefix

    abbrev index_of : Request → ℕ
    index_of (points index) = index
    index_of (imu index) = index

    request-AllNamed :
        (r : Request) (t : Publishers) (slot : Option Publisher) (t' : Publishers)
        → AllNamed t
        → request ip_num_to_string true transfer_format s r t ≡ some (slot, t')
        → AllNamed t'
          × ((made : Publisher) → slot ≡ some made → IsFor (prefix_of r) (index_of r) made)
    unfolding request get_current_publisher get_current_imu_publisher
    request-AllNamed (points index) t slot t' named h =
        let (r, e, f) =
          >>=-eq-some
            (private_publisher ip_num_to_string transfer_format lidar_prefix index s t.private_pub
              t.created)
            _ h in
        let (slots, here) =
          private_publisher-AreNamed transfer_format lidar_prefix (omega arith) t.private_pub
            named.lidars index t.created r.0 e in
        let g = some-injective _ _ f in
        (
          subst AllNamed (ap (λ q. q.1) g) (record { lidars = slots; imus = named.imus }),
          λ made q. here made (ap (λ q. q.0) g ∙ q),
        )
    request-AllNamed (imu index) t slot t' named h =
        let (r, e, f) =
          >>=-eq-some
            (private_publisher ip_num_to_string imu_msg imu_prefix index s t.private_imu_pub
              t.created)
            _ h in
        let (slots, here) =
          private_publisher-AreNamed imu_msg imu_prefix (omega arith) t.private_imu_pub named.imus
            index t.created r.0 e in
        let g = some-injective _ _ f in
        (
          subst AllNamed (ap (λ q. q.1) g) (record { lidars = named.lidars; imus = slots }),
          λ made q. here made (ap (λ q. q.0) g ∙ q),
        )

    request_all-AllNamed :
        (requests : List Request) (t t' : Publishers)
        → AllNamed t
        → request_all ip_num_to_string true transfer_format s requests t ≡ some t'
        → AllNamed t'
    unfolding request_all
    request_all-AllNamed [] t t' named h = subst AllNamed (some-injective _ _ h) named
    request_all-AllNamed (r ∷ requests) t t' named h =
        let (answered, e, f) =
          >>=-eq-some (request ip_num_to_string true transfer_format s r t) _ h in
        request_all-AllNamed requests answered.1 t'
          (request-AllNamed r t answered.0 answered.1 named e).0 f

    -- With a topic for each lidar, addresses that are written as inet_ntoa writes them, and devices
    -- that keep their handles, which are 32-bit numbers: whatever publishers were asked for before, in two histories, if a
    -- lidar's points in the one are published on the topic of a lidar's points in the other, the two
    -- devices have the same handle, and the topic is "livox/lidar_" with the address, '_' for '.'.
    pub request-same_topic :
        (requests others : List Request) (t u t' u' : Publishers) (i k : ℕ) (a b : Publisher)
        → request_all ip_num_to_string true transfer_format s requests no_publishers ≡ some t
        → request_all ip_num_to_string true transfer_format s others no_publishers ≡ some u
        → request ip_num_to_string true transfer_format s (points i) t ≡ some (some a, t')
        → request ip_num_to_string true transfer_format s (points k) u ≡ some (some b, u')
        → a.topic_name ≡ b.topic_name
        → (d e : LidarDevice R) × (get_elem? s.lidars i ≡ some d)
          × (get_elem? s.lidars k ≡ some e)
          × (d.handle ≡ e.handle)
          × (a.topic_name ≡ codes "livox/lidar_" ++ map underlined (ip_num_to_string d.handle))
    request-same_topic requests others t u t' u' i k a b run other_run ask other_ask same =
        let named = request_all-AllNamed requests no_publishers t no_publishers-AllNamed run in
        let other_named =
          request_all-AllNamed others no_publishers u no_publishers-AllNamed other_run in
        let (d, here, name) = (request-AllNamed (points i) t (some a) t' named ask).1 a refl in
        let (e, there, other_name) =
          (request-AllNamed (points k) u (some b) u' other_named other_ask).1 b refl in
        (
          d,
          e,
          here,
          there,
          topic-injective ip_num_to_string address lidar_prefix d.handle e.handle (words i d here)
              (words k e there) (sym name ∙ same ∙ other_name),
          name,
        )
