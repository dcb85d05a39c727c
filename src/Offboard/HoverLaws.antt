-- ===== src/Offboard/HoverLaws.antt =====
-- The hover state machine: which states follow which, and where the vehicle is told to be.
use firt_version_ws.Prelude.{
  if_true, if_false, ℕ, Bool, true, false, ◌≡◌, refl, arith, List, [], ◌∷◌, none, not,
  if◌then◌else◌, ap, ◌∙◌,
}
use firt_version_ws.Platform.{Platform, dec, le, lt}
use firt_version_ws.Offboard.State.{
  Base, Command, HoverState, idle, positioning, hovering, completed, position_setpoint,
}
use firt_version_ws.Offboard.Hover.{
  update_hover, update_hover_in, check_hover_position_reached, check_hover_exit_conditions,
}

-- A hover is under way.
abbrev pub is_active : HoverState → Bool
is_active positioning = true
is_active hovering = true
is_active _ = false

infix 40 ◌↝◌
-- The steps that update_hover() may take between two states.
pub data ◌↝◌ : HoverState → HoverState → Type 0 where
  wait : positioning ↝ positioning
  arrive : positioning ↝ hovering
  hold : hovering ↝ hovering
  leave : hovering ↝ completed
  clear : completed ↝ idle
  rest : idle ↝ idle

stays_or : {a b : HoverState} (t : Bool) → a ↝ a → a ↝ b → a ↝ (if t then b else a)
stays_or true h k = k
stays_or false h k = h

module _ {R : Type 0} ⦃p : Platform R⦄ where
  -- The setpoint that a hover holds.
  abbrev pub hover_point : Base R → Command R
  hover_point b =
      let c = b.hover_config in position_setpoint c.x c.y c.z (p.set_rpy (dec 0 0) (dec 0 0) c.yaw)

  positioning-next :
      (now : ℕ) (b : Base R)
      → b.hover_state ≡ positioning
      → (update_hover_in positioning now b).0.hover_state
        ≡ (if check_hover_position_reached b then hovering else positioning)
  unfolding update_hover_in check_hover_position_reached
  positioning-next now b e = ground arith

  hovering-next :
      (now : ℕ) (b : Base R)
      → b.hover_state ≡ hovering
      → (update_hover_in hovering now b).0.hover_state
        ≡ (if check_hover_exit_conditions now b then completed else hovering)
  unfolding update_hover_in check_hover_exit_conditions
  hovering-next now b e = ground arith

  update_hover_in-↝ :
      (h : HoverState) (now : ℕ) (b : Base R)
      → b.hover_state ≡ h
      → h ↝ (update_hover_in h now b).0.hover_state
  update_hover_in-↝ idle now b e = unfold update_hover_in in rw e rest
  update_hover_in-↝ positioning now b e =
      rw (positioning-next now b e) (stays_or (check_hover_position_reached b) wait arrive)
  update_hover_in-↝ hovering now b e =
      rw (hovering-next now b e) (stays_or (check_hover_exit_conditions now b) hold leave)
  update_hover_in-↝ completed now b e = unfold update_hover_in in clear

  update_hover_in-out :
      (h : HoverState) (now : ℕ) (b : Base R)
      → b.hover_state ≡ h
      → let (c, done) = update_hover_in h now b in
        (c.out ≡ (if is_active h then hover_point b ∷ b.out else b.out))
        × (done ≡ not (is_active c.hover_state))
  unfolding update_hover_in
  update_hover_in-out idle now b e = ground arith
  update_hover_in-out positioning now b e = ground arith
  update_hover_in-out hovering now b e = ground arith
  update_hover_in-out completed now b e = ground arith

  -- What an update does in every state: the state takes a step of the diagram; a setpoint is sent, at
  -- the hover point, just while positioning or hovering; and the update reports true just when no
  -- hover is under way or this one ends.
  pub update_hover_lem :
      (now : ℕ) (b : Base R)
      → let (c, done) = update_hover now b in
        (b.hover_state ↝ c.hover_state)
        × (c.out ≡ (if is_active b.hover_state then hover_point b ∷ b.out else b.out))
        × (done ≡ not (is_active c.hover_state))
  unfolding update_hover
  update_hover_lem now b =
      let sent = update_hover_in-out b.hover_state now b refl in
      (update_hover_in-↝ b.hover_state now b refl, sent.0, sent.1)

  -- A hover of positive duration without an exit condition.
  pub record IsTimed (b : Base R) : Type 0 where
    pub state : b.hover_state ≡ hovering
    pub positive : lt (dec 0 0) b.hover_config.duration ≡ true
    pub unconditional : b.hover_config.exit_condition ≡ none

  -- The updates at the given clock readings.
  unfoldable pub updates : List ℕ → Base R → Base R
  updates [] b = b
  updates (now ∷ nows) b = updates nows (update_hover now b).0

  -- No reading is as far as the duration from the start of the hover.
  abbrev pub AllBefore : List ℕ → Base R → Type 0
  AllBefore [] b = Unit {0}
  AllBefore (now ∷ nows) b =
      (le b.hover_config.duration (p.seconds now b.hover_start_time) ≡ false) × AllBefore nows b

  -- The setpoints of `nows`, on top of what was sent.
  abbrev pub holds : List ℕ → Command R → List (Command R) → List (Command R)
  holds [] c out = out
  holds (now ∷ nows) c out = holds nows c (c ∷ out)

  held : Base R → Base R
  held b = record b { out = hover_point b ∷ b.out }

  exits_by_time :
      (now : ℕ) (b : Base R)
      → IsTimed b
      → check_hover_exit_conditions now b
        ≡ le b.hover_config.duration (p.seconds now b.hover_start_time)
  unfolding check_hover_exit_conditions
  exits_by_time now b i = ground (arith, i)

  update-IsTimed :
      (now : ℕ) (b : Base R)
      → IsTimed b
      → le b.hover_config.duration (p.seconds now b.hover_start_time) ≡ false
      → (update_hover now b).0 ≡ held b
  unfolding update_hover update_hover_in held check_hover_exit_conditions
  update-IsTimed now b i l =
      ap (λ h. (update_hover_in h now b).0) i.state
      ∙ ap (λ (u : Base R × Bool). u.0) (if_false _ _ (exits_by_time now b i ∙ l))

  held-IsTimed : (b : Base R) → IsTimed b → IsTimed (held b)
  unfolding held
  held-IsTimed b i = record {
    state = i.state;
    positive = i.positive;
    unconditional = i.unconditional;
  }

  held-AllBefore : (nows : List ℕ) (b : Base R) → AllBefore nows b → AllBefore nows (held b)
  unfolding held
  held-AllBefore [] b h = tt
  held-AllBefore (now ∷ nows) b (h, hs) = (h, held-AllBefore nows b hs)

  updates-held :
      (now : ℕ) (nows : List ℕ) (b : Base R)
      → IsTimed b
      → le b.hover_config.duration (p.seconds now b.hover_start_time) ≡ false
      → updates (now ∷ nows) b ≡ updates nows (held b)
  unfolding updates
  updates-held now nows b i l = ap (updates nows) (update-IsTimed now b i l)

  complete-IsTimed :
      (last : ℕ) (b : Base R)
      → IsTimed b
      → le b.hover_config.duration (p.seconds last b.hover_start_time) ≡ true
      → let (c, done) = update_hover last b in
        (b.hover_state ≡ hovering)
        × (c.hover_state ≡ completed)
        × (done ≡ true)
        × (c.out ≡ hover_point b ∷ b.out)
  complete-IsTimed last b i e =
      let u : update_hover last b
          ≡ (record b { hover_state = completed; out = hover_point b ∷ b.out }, true) =
        unfold update_hover update_hover_in check_hover_exit_conditions in
        ap (λ h. update_hover_in h last b) i.state ∙ if_true _ _ (exits_by_time last b i ∙ e) in
      rw u (i.state, refl, refl, refl)

  -- A hover that is under way, with a positive duration and no exit condition, ends by time: updates
  -- before the duration has passed leave it hovering and send its point once each, and the first one
  -- after that completes it and reports true.
  pub timed_hover :
      (nows : List ℕ) (last : ℕ) (b : Base R)
      → IsTimed b
      → AllBefore nows b
      → le b.hover_config.duration (p.seconds last b.hover_start_time) ≡ true
      → let (c, done) = update_hover last (updates nows b) in
        ((updates nows b).hover_state ≡ hovering)
        × (c.hover_state ≡ completed)
        × (done ≡ true)
        × (c.out ≡ hover_point b ∷ holds nows (hover_point b) b.out)
  unfolding held
  timed_hover [] last b i l e = unfold updates in complete-IsTimed last b i e
  timed_hover (now ∷ nows) last b i (l, ls) e = rw (updates-held now nows b i l) (
      timed_hover nows last (held b) (held-IsTimed b i) (held-AllBefore nows b ls)
        (unfold held in e))
