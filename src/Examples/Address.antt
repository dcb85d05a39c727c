-- ===== src/Examples/Address.antt =====
-- inet_ntoa as a concrete function: four decimal numbers with periods between them.
use firt_version_ws.Prelude.{
  ℕ, ◌+◌, ◌/◌, ◌%◌, ◌^◌, ◌≤◌, ◌<◌, ◌≡◌, refl, inl, inr, if◌then◌else◌, ltb, Bool-cases, List, [],
  ◌∷◌, All, length, arith,
}
use firt_version_ws.Livox.Topics.{period}
use firt_version_ws.Livox.Topics.Laws.{IsAddress, IsDottedChar}

-- The decimal digits of a byte, before a text.
abbrev pub byte_text : ℕ → List ℕ → List ℕ
byte_text b rest =
    if ltb b 10
    then (48 + b) ∷ rest
    else if ltb b 100
    then (48 + b / 10) ∷ (48 + b % 10) ∷ rest
    else (48 + b / 100) ∷ (48 + b / 10 % 10) ∷ (48 + b % 10) ∷ rest

abbrev pub inet_ntoa : ℕ → List ℕ
inet_ntoa n = byte_text (n % 256) (
    period
    ∷ byte_text (n / 256 % 256)
        (period ∷ byte_text (n / 65536 % 256) (period ∷ byte_text (n / 16777216 % 256) [])))

byte_text-injective :
    (a b : ℕ) (xs ys : List ℕ)
    → a < 256
    → b < 256
    → byte_text a (period ∷ xs) ≡ byte_text b (period ∷ ys)
    → (a ≡ b) × (xs ≡ ys)
byte_text-injective a b xs ys h k e = ground arith

byte_text-last : (a b : ℕ) → a < 256 → b < 256 → byte_text a [] ≡ byte_text b [] → a ≡ b
byte_text-last a b h k e = ground arith

byte_text-length : (b : ℕ) (rest : List ℕ) → length (byte_text b rest) ≤ 3 + length rest
byte_text-length b rest = ground arith

digit : (d : ℕ) → d ≤ 9 → IsDottedChar (48 + d)
digit d h = inr (omega arith, omega arith)

byte_text-dotted :
    (b : ℕ) (rest : List ℕ) → b < 256 → All IsDottedChar rest → All IsDottedChar (byte_text b rest)
byte_text-dotted b rest h k = elim (Bool-cases (ltb b 10)) [
  | inl one ↦ rw one (digit b (ground (arith, one)), k)
  | inr more ↦ elim (Bool-cases (ltb b 100)) [
    | inl two ↦
        rw (more, two) (digit (b / 10) (ground (arith, two)), (digit (b % 10) (omega arith), k))
    | inr three ↦
        rw (more, three)
          (
            digit (b / 100) (omega (arith, h)),
            (digit (b / 10 % 10) (omega arith), (digit (b % 10) (omega arith), k)),
          )
  ]
]

inet_ntoa-injective : (n m : ℕ) → n < 2 ^ 32 → m < 2 ^ 32 → inet_ntoa n ≡ inet_ntoa m → n ≡ m
inet_ntoa-injective n m h k e =
    let (a, e1) = byte_text-injective (n % 256) (m % 256) _ _ (omega arith) (omega arith) e in
    let (b, e2) =
      byte_text-injective (n / 256 % 256) (m / 256 % 256) _ _ (omega arith) (omega arith) e1 in
    let (c, e3) =
      byte_text-injective (n / 65536 % 256) (m / 65536 % 256) _ _ (omega arith) (omega arith) e2 in
    let d =
      byte_text-last (n / 16777216 % 256) (m / 16777216 % 256) (omega arith) (omega arith) e3 in
    omega (arith, a, b, c, d, h, k)

inet_ntoa-short : (n : ℕ) → length (inet_ntoa n) ≤ 15
inet_ntoa-short n =
    let fourth = byte_text-length (n / 16777216 % 256) [] in
    let third = byte_text-length (n / 65536 % 256) (period ∷ byte_text (n / 16777216 % 256) []) in
    let second =
      byte_text-length (n / 256 % 256)
        (period ∷ byte_text (n / 65536 % 256) (period ∷ byte_text (n / 16777216 % 256) [])) in
    omega (arith, byte_text-length (n % 256) _, second, third, fourth)

inet_ntoa-dotted : (n : ℕ) → All IsDottedChar (inet_ntoa n)
inet_ntoa-dotted n =
    let fourth = byte_text-dotted (n / 16777216 % 256) [] (omega arith) tt in
    let third =
      byte_text-dotted (n / 65536 % 256) (period ∷ byte_text (n / 16777216 % 256) []) (omega arith)
        (inl refl, fourth) in
    let second =
      byte_text-dotted (n / 256 % 256)
        (period ∷ byte_text (n / 65536 % 256) (period ∷ byte_text (n / 16777216 % 256) []))
        (omega arith) (inl refl, third) in
    byte_text-dotted (n % 256)
      (period
        ∷ byte_text (n / 256 % 256)
            (period ∷ byte_text (n / 65536 % 256) (period ∷ byte_text (n / 16777216 % 256) [])))
      (omega arith) (inl refl, second)

pub inet_ntoa-IsAddress : IsAddress inet_ntoa
inet_ntoa-IsAddress = record {
  short = λ n h. inet_ntoa-short n;
  dotted = λ n h. inet_ntoa-dotted n;
  apart = inet_ntoa-injective;
}
