-- ===== src/Offboard/HoverFor.antt =====
-- A hover for a given time, from its start to its end.
use firt_version_ws.Prelude.{
  if_true, if_false, ℕ, true, ◌≡◌, refl, arith, inl, inr, Bool-cases, List, ◌∷◌, ap, sym, ◌∙◌,
}
use firt_version_ws.Platform.{Platform, dec, le, lt}
use firt_version_ws.Offboard.State.{
  Base, HoverConfig, hovering, positioning, completed, default_hover_config,
}
use firt_version_ws.Offboard.Hover.{
  start_hover, start_hover_for, stop_hover, place_hover, reset_hover_state,
  check_hover_position_reached, update_hover,
}
use firt_version_ws.Offboard.HoverLaws.{
  IsTimed, AllBefore, updates, holds, hover_point, timed_hover,
}

module _ {R : Type 0} ⦃p : Platform R⦄ where
  -- The configuration of start_hover(duration) and what it places.
  for_config : R → HoverConfig R
  unfolding default_hover_config
  for_config d =
      let c = default_hover_config in record c { use_current_position = true; duration = d }

  placed_for : R → Base R → Base R
  unfolding for_config place_hover
  placed_for d b = place_hover (for_config d) (stop_hover b)

  check-positioning :
      (b : Base R)
      → check_hover_position_reached (record b { hover_state = positioning })
        ≡ check_hover_position_reached b
  unfolding check_hover_position_reached
  check-positioning b = refl

  start_hover-reached :
      (now : ℕ) (d : R) (b : Base R)
      → check_hover_position_reached (start_hover_for now d b) ≡ true
      → start_hover_for now d b
        ≡ record (placed_for d b) { hover_state = hovering; hover_start_time = now }
  unfolding start_hover_for start_hover placed_for for_config
  start_hover-reached now d b reached =
      elim (Bool-cases (check_hover_position_reached (placed_for d b))) [
        | inl near ↦ if_true _ _ near
        | inr far ↦
            let same : check_hover_position_reached (placed_for d b) ≡ true =
              sym (check-positioning (placed_for d b))
              ∙ ap (λ (u : Base R). check_hover_position_reached u) (sym (if_false _ _ far))
              ∙ reached in
            absurd (ground (arith, same, far))
      ]

  started-IsTimed :
      (now : ℕ) (d : R) (b : Base R)
      → lt (dec 0 0) d ≡ true
      → IsTimed (record (placed_for d b) { hover_state = hovering; hover_start_time = now })
  unfolding placed_for place_hover for_config
  started-IsTimed now d b positive = record {
    state = refl;
    positive = positive;
    unconditional = refl;
  }

  started-out :
      (now : ℕ) (d : R) (b : Base R)
      → (record (placed_for d b) { hover_state = hovering; hover_start_time = now }).out ≡ b.out
  unfolding placed_for place_hover stop_hover reset_hover_state
  started-out now d b = ground arith

  -- start_hover(duration) with a positive duration, if it finds the vehicle in place: updates before
  -- the duration has passed leave the hover going and send its point once each, the first one after
  -- that completes it and reports true, and nothing else is sent from the call on.
  pub start_hover_for_lem :
      (now : ℕ) (d : R) (b : Base R) (nows : List ℕ) (last : ℕ)
      → check_hover_position_reached (start_hover_for now d b) ≡ true
      → lt (dec 0 0) d ≡ true
      → AllBefore nows (start_hover_for now d b)
      → le d (p.seconds last now) ≡ true
      → let u = start_hover_for now d b in
        let (c, done) = update_hover last (updates nows u) in
        ((updates nows u).hover_state ≡ hovering)
        × (c.hover_state ≡ completed)
        × (done ≡ true)
        × (c.out ≡ hover_point u ∷ holds nows (hover_point u) b.out)
  start_hover_for_lem now d b nows last reached positive before after =
      let u : Base R = record (placed_for d b) { hover_state = hovering; hover_start_time = now } in
      let start = start_hover-reached now d b reached in
      let (going, ended, told, out) =
        timed_hover nows last u (started-IsTimed now d b positive) (rw start at before)
          (unfold placed_for place_hover for_config in after) in
      rw start (
        going,
        ended,
        told,
        out ∙ ap (λ o. hover_point u ∷ holds nows (hover_point u) o) (started-out now d b),
      )
