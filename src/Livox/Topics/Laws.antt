-- ===== src/Livox/Topics/Laws.antt =====
-- ReplacePeriodByUnderline, and which topic a lidar's messages go to.

use mathlib.Core.Option.{some-injective}
use mathlib.Core.List.{map}
use firt_version_ws.Prelude.{
  ℕ, zero, suc, ◌+◌, ◌≤◌, ◌<◌, ◌≡◌, ◌≢◌, ◌⊎◌, ◌^◌, refl, sym, ap, ◌∙◌, inl, inr, Bool-cases,
  Option-cases, none, some, List, [], ◌∷◌, ◌++◌, All, arith, if◌then◌else◌, ◌==◌, >>=-eq-some, set,
  length, length-append,
}
use firt_version_ws.Livox.Topics.{
  period, underline, find_period, replace_loop, replace_period_by_underline, cut, topic_name_of,
}

abbrev pub underlined : ℕ → ℕ
underlined c = if c == period then underline else c

periods : List ℕ → ℕ
periods [] = 0
periods (c ∷ str) = if c == period then suc (periods str) else periods str

periods-le : (str : List ℕ) → periods str ≤ length str
unfolding periods
periods-le [] = omega arith
periods-le (c ∷ str) = ground (arith, periods-le str)

find_period-none : (str : List ℕ) → find_period str ≡ none → map underlined str ≡ str
unfolding find_period
find_period-none [] h = refl
find_period-none (c ∷ str) h = ground (arith, find_period-none str)

-- A period that is found is replaced: there is one less, and the other characters are the same.
find_period-some :
    (str : List ℕ) (i : ℕ)
    → find_period str ≡ some i
    → (periods (set str i underline) + 1 ≡ periods str)
      × (map underlined (set str i underline) ≡ map underlined str)
unfolding find_period periods
find_period-some [] i h = cc
find_period-some (c ∷ str) i h = elim (Bool-cases (c == period)) [
  | inl here ↦
      let first : 0 ≡ i = some-injective _ _ (rw here at h) in
      rw (← first, here) (ground arith, refl)
  | inr other ↦
      let (k, e, f) = >>=-eq-some (find_period str) _ (rw other at h) in
      let (less, same) = find_period-some str k e in
      let next : suc k ≡ i = omega (arith, some-injective _ _ f) in
      rw (← next, other) (less, ap (λ rest. c ∷ rest) same)
]

replace_loop-map :
    (fuel : ℕ) (str : List ℕ)
    → periods str < fuel
    → replace_loop fuel str ≡ some (map underlined str)
unfolding replace_loop
replace_loop-map zero str h = elim h [ ]
replace_loop-map (suc fuel) str h = elim (Option-cases (find_period str)) [
  | inl done ↦ rw (replace_loop, done) (ap some (sym (find_period-none str done)))
  | inr (i, found) ↦
      let (less, same) = find_period-some str i found in
      rw (replace_loop, found)
        (replace_loop-map fuel (set str i underline) (omega arith) ∙ ap some same)
]

-- ReplacePeriodByUnderline ends for every text, and gives the text with each '.' an '_'.
pub replace_period_by_underline-map :
    (str : List ℕ) → replace_period_by_underline str ≡ some (map underlined str)
unfolding replace_period_by_underline
replace_period_by_underline-map str =
    replace_loop-map (length str + 1) str (omega (arith, periods-le str))

cut-all : (n : ℕ) (str : List ℕ) → length str ≤ n → cut n str ≡ str
unfolding cut
cut-all zero [] h = refl
cut-all zero (c ∷ str) h = absurd (omega arith)
cut-all (suc n) [] h = refl
cut-all (suc n) (c ∷ str) h = ap (λ rest. c ∷ rest) (cut-all n str (omega arith))

length-map : (str : List ℕ) → length (map underlined str) ≡ length str
length-map [] = refl
length-map (c ∷ str) = ap suc (length-map str)

-- Texts without an underline differ after the replacement if they differ before.
map-underlined-injective :
    (a b : List ℕ)
    → All (λ c. c ≢ underline) a
    → All (λ c. c ≢ underline) b
    → map underlined a ≡ map underlined b
    → a ≡ b
map-underlined-injective [] [] h k e = refl
map-underlined-injective [] (y ∷ b) h k e = cc
map-underlined-injective (x ∷ a) [] h k e = cc
map-underlined-injective (x ∷ a) (y ∷ b) h k e =
    let (first, later) = cons_parts e in
    let same : x ≡ y = ground (arith, h.0, k.0) in cc (map-underlined-injective a b h.1 k.1 later)
  where
    cons_parts : {x y : ℕ} {a b : List ℕ} → x ∷ a ≡ y ∷ b → (x ≡ y) × (a ≡ b)
    cons_parts e = (cc, cc)

append-injective : (p a b : List ℕ) → p ++ a ≡ p ++ b → a ≡ b
append-injective [] a b e = e
append-injective (c ∷ p) a b e = append-injective p a b cc

-- '0' to '9' or '.'
abbrev pub IsDottedChar : ℕ → Type 0
IsDottedChar c = (c ≡ period) ⊎ ((48 ≤ c) × (c ≤ 57))

-- What inet_ntoa gives for a uint32: digits and periods, at most 15 of them, and another text for
-- another address.
pub record IsAddress (ip_num_to_string : ℕ → List ℕ) : Type 0 where
  pub short : (n : ℕ) → n < 2 ^ 32 → length (ip_num_to_string n) ≤ 15
  pub dotted : (n : ℕ) → n < 2 ^ 32 → All IsDottedChar (ip_num_to_string n)
  pub apart : (n m : ℕ) → n < 2 ^ 32 → m < 2 ^ 32 → ip_num_to_string n ≡ ip_num_to_string m → n ≡ m

dotted-plain : (str : List ℕ) → All IsDottedChar str → All (λ c. c ≢ underline) str
dotted-plain [] h = tt
dotted-plain (c ∷ str) h = (ground (arith, h.0), dotted-plain str h.1)

module _ (ip_num_to_string : ℕ → List ℕ) (address : IsAddress ip_num_to_string) where
  abbrev pub topic : List ℕ → ℕ → List ℕ
  topic prefix handle = prefix ++ map underlined (ip_num_to_string handle)

  pub topic_name_of-topic :
      (prefix : List ℕ) (handle : ℕ)
      → length prefix ≤ 32
      → handle < 2 ^ 32
      → topic_name_of ip_num_to_string prefix handle ≡ some (topic prefix handle)
  unfolding topic_name_of
  topic_name_of-topic prefix handle h word =
      let str = ip_num_to_string handle in
      let small : length (topic prefix handle) ≤ 47 = omega (
        arith,
        length-append prefix (map underlined str),
        length-map str,
        address.short handle word,
      ) in
      rw (replace_period_by_underline-map str) (ap some (cut-all 47 (topic prefix handle) small))

  pub topic-injective :
      (prefix : List ℕ) (handle other : ℕ)
      → handle < 2 ^ 32
      → other < 2 ^ 32
      → topic prefix handle ≡ topic prefix other
      → handle ≡ other
  topic-injective prefix handle other word other_word e =
      address.apart handle other word other_word (
        map-underlined-injective (ip_num_to_string handle) (ip_num_to_string other)
          (dotted-plain _ (address.dotted handle word))
          (dotted-plain _ (address.dotted other other_word)) (append-injective prefix _ _ e))
