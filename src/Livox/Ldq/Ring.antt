-- ===== src/Livox/Ldq/Ring.antt =====
-- The window of a ring of slots: the elements from an index on, going round.
use mathlib.Core.Path.{ap₂}
use native.Mathlib.Nat.{mod-add-mod, mod-lt, add-zero}
use firt_version_ws.Prelude.{
  ℕ, zero, suc, ◌+◌, ◌%◌, ◌<◌, ◌≡◌, ◌≢◌, refl, sym, ap, subst, ◌∙◌, List, [], ◌∷◌, ◌++◌, arith,
  length, get_or, set, get_or-set_self, get_or-set_ne,
}

module _ {A : Type 0} (blank : A) (size : ℕ) where
  -- The n elements from index r on; r is not yet reduced.
  abbrev pub window : List A → ℕ → ℕ → List A
  window slots r zero = []
  window slots r (suc n) = get_or slots (r % size) blank ∷ window slots (r + 1) n

  pub length-window : (slots : List A) (r n : ℕ) → length (window slots r n) ≡ n
  length-window slots r zero = refl
  length-window slots r (suc n) = ap suc (length-window slots (r + 1) n)

  -- Only the index modulo the size counts.
  pub window-cong :
      (slots : List A) (r s n : ℕ) → r % size ≡ s % size → window slots r n ≡ window slots s n
  window-cong slots r s zero e = refl
  window-cong slots r s (suc n) e =
      let next : (r + 1) % size ≡ (s + 1) % size =
        sym (mod-add-mod r size 1) ∙ ap (λ k. (k + 1) % size) e ∙ mod-add-mod s size 1 in
      rw (e, window-cong slots (r + 1) (s + 1) n next) refl

-- Fewer than `size` steps do not come back.
add-mod-ne : (size r k : ℕ) → 0 < k → k < size → (r + k) % size ≢ r % size
add-mod-ne size r k pos small e = grind arith

module _ {A : Type 0} (blank : A) (size : ℕ) where
  -- Writing just past a window makes it longer by that element.
  pub window-set :
      (slots : List A) (a : A) (r n : ℕ)
      → length slots ≡ size
      → n < size
      → window blank size (set slots ((r + n) % size) a) r (suc n)
        ≡ window blank size slots r n ++ (a ∷ [])
  window-set slots a r zero len l =
      let inside : r % size < length slots = rw len (mod-lt r l) in
      rw (add-zero, get_or-set_self slots (r % size) a blank inside) refl
  window-set slots a r (suc n) len l =
      let shift : r + 1 + n ≡ r + suc n = omega arith in
      ap₂ ◌∷◌
        (get_or-set_ne slots ((r + suc n) % size) (r % size) a blank
          (add-mod-ne size r (suc n) (omega arith) l))
        (subst
          (λ k.
            window blank size (set slots (k % size) a) (r + 1) (suc n)
            ≡ window blank size slots (r + 1) n ++ (a ∷ []))
          shift (window-set slots a (r + 1) n len (omega arith)))
