-- ===== src/Domain/Graph/Bags.antt =====
-- src/nexusflow/domain/graph.py: how often a text occurs in a list, and what that says of lengths.
use nexusflow.Base.{
  ℕ, suc, ◌+◌, ◌≤◌, ◌≡◌, refl, String, true, List, [], ◌∷◌, ◌++◌, length, contains, str_eq,
  if◌then◌else◌, arith, Bool-cases, inl, inr, eq_iff, ap, ◌∙◌, ltb, leb, sym,
}

abbrev pub occurrences : String → List String → ℕ
occurrences x [] = 0
occurrences x (y ∷ ys) = (if str_eq y x then 1 else 0) + occurrences x ys

pub str_eq_refl : (x : String) → str_eq x x ≡ true
str_eq_refl x = (eq_iff x x).1 refl

pub str_eq_sym : (x y : String) → str_eq x y ≡ str_eq y x
str_eq_sym x y = elim (Bool-cases (str_eq x y)) [
  | inl same ↦ let e : x ≡ y = (eq_iff x y).0 same in rw e refl
  | inr other ↦ elim (Bool-cases (str_eq y x)) [
    | inl same ↦ let e : y ≡ x = (eq_iff y x).0 same in rw e refl
    | inr apart ↦ other ∙ sym apart
  ]
]

pub occurrences_same :
    (x y : String) (xs : List String) → str_eq x y ≡ true → occurrences x xs ≡ occurrences y xs
occurrences_same x y xs same = ap (λ z. occurrences z xs) ((eq_iff x y).0 same)

pub occurrences-append :
    (x : String) (xs ys : List String)
    → occurrences x (xs ++ ys) ≡ occurrences x xs + occurrences x ys
occurrences-append x [] ys = omega arith
occurrences-append x (z ∷ zs) ys = let ih = occurrences-append x zs ys in ground arith

pub contains_iff : (x : String) (xs : List String) → contains xs x ≡ ltb 0 (occurrences x xs)
contains_iff x [] = refl
contains_iff x (y ∷ ys) = let ih = contains_iff x ys in ground arith

abbrev remove : String → List String → List String
remove x [] = []
remove x (y ∷ ys) = let rest = remove x ys in if str_eq y x then ys else y ∷ rest

occurrences-remove :
    (x z : String) (ys : List String)
    → 1 ≤ occurrences x ys
    → occurrences z (remove x ys) + (if str_eq x z then 1 else 0) ≡ occurrences z ys
occurrences-remove x z [] h = absurd (omega (arith, h))
occurrences-remove x z (y ∷ ys) h =
    let ih = occurrences-remove x z ys in
    elim (Bool-cases (str_eq y x)) [
      | inl same ↦ let is_x : y ≡ x = (eq_iff y x).0 same in rw same (rw is_x (ground arith))
      | inr other ↦ ground (arith, other, ih (ground (arith, other, h)))
    ]

length-remove :
    (x : String) (ys : List String) → 1 ≤ occurrences x ys → suc (length (remove x ys)) ≡ length ys
length-remove x [] h = absurd (omega (arith, h))
length-remove x (y ∷ ys) h = let ih = length-remove x ys in ground (arith, ih)

-- No text occurs more often in xs than in ys.
abbrev pub SubBag : List String → List String → Type 0
SubBag xs ys = (x : String) → occurrences x xs ≤ occurrences x ys

pub SubBag-length : (xs ys : List String) → SubBag xs ys → length xs ≤ length ys
SubBag-length [] ys sub = omega arith
SubBag-length (x ∷ xs) ys sub =
    let there : 1 ≤ occurrences x ys = ground (arith, str_eq_refl x, sub x) in
    let rest =
      SubBag-length xs (remove x ys)
        (λ z. ground (arith, sub z, occurrences-remove x z ys there)) in
    omega (arith, rest, length-remove x ys there)

pub SubBag-full : (xs ys : List String) → SubBag xs ys → length ys ≤ length xs → SubBag ys xs
SubBag-full xs ys sub long x = elim (Bool-cases (leb (occurrences x ys) (occurrences x xs))) [
  | inl fits ↦ ground (arith, fits)
  | inr more ↦
      let longer = SubBag-length (x ∷ xs) ys (λ z. elim (Bool-cases (str_eq x z)) [
        | inl same ↦
            ground (arith, more, same, occurrences_same x z xs same, occurrences_same x z ys same)
        | inr other ↦ ground (arith, other, sub z)
      ]) in
      absurd (omega (arith, longer, long))
]
