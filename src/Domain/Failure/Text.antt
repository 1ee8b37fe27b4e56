-- ===== src/Domain/Failure/Text.antt =====
-- The methods of Python's str that classify_worker_failure of src/nexusflow/domain/failure.py calls.
use Prim.Native.String.{String}
use Prim.Native.Char.{code}
use nexusflow.Base.{
  ℕ, zero, suc, Bool, true, false, List, [], ◌∷◌, ◌++◌, ◌&&◌, ◌||◌, ◌==◌, ◌-◌, leb, any,
  if◌then◌else◌,
}

abbrev between : ℕ → ℕ → ℕ → Bool
between first last c = leb first c && leb c last

-- c.isspace()
abbrev is_space : ℕ → Bool
is_space c =
    between 9 13 c
    || between 28 32 c
    || between 8192 8202 c
    || any (λ space. c == space) (133 ∷ 160 ∷ 5760 ∷ 8232 ∷ 8233 ∷ 8239 ∷ 8287 ∷ 12288 ∷ [])

abbrev left_strip : String → String
left_strip String.[] = String.[]
left_strip (String.◌∷◌ c s) =
    let rest = left_strip s in if is_space (code c) then rest else String.◌∷◌ c s

abbrev is_blank : String → Bool
is_blank String.[] = true
is_blank (String.◌∷◌ c s) = is_space (code c) && is_blank s

abbrev right_strip : String → String
right_strip String.[] = String.[]
right_strip (String.◌∷◌ c s) =
    if is_space (code c) && is_blank s then String.[] else String.◌∷◌ c (right_strip s)

-- s.strip()
unfoldable pub strip : String → String
strip s = right_strip (left_strip s)

-- s[:n]
unfoldable pub prefix : ℕ → String → String
prefix zero s = String.[]
prefix (suc n) String.[] = String.[]
prefix (suc n) (String.◌∷◌ c s) = String.◌∷◌ c (prefix n s)

-- The characters other than a to z whose upper case has a letter from A to Z. In the upper case of the
-- others, which is left as the character is, no character stands in a search word.
abbrev special_upper : ℕ → List ℕ
special_upper c =
    if c == 223
    then 83 ∷ 83 ∷ []
    else if c == 305
    then 73 ∷ []
    else if c == 329
    then 700 ∷ 78 ∷ []
    else if c == 383
    then 83 ∷ []
    else if c == 496
    then 74 ∷ 780 ∷ []
    else if c == 7830
    then 72 ∷ 817 ∷ []
    else if c == 7831
    then 84 ∷ 776 ∷ []
    else if c == 7832
    then 87 ∷ 778 ∷ []
    else if c == 7833
    then 89 ∷ 778 ∷ []
    else if c == 7834
    then 65 ∷ 702 ∷ []
    else if c == 64256
    then 70 ∷ 70 ∷ []
    else if c == 64257
    then 70 ∷ 73 ∷ []
    else if c == 64258
    then 70 ∷ 76 ∷ []
    else if c == 64259
    then 70 ∷ 70 ∷ 73 ∷ []
    else if c == 64260
    then 70 ∷ 70 ∷ 76 ∷ []
    else if between 64261 64262 c
    then 83 ∷ 84 ∷ []
    else c ∷ []

-- The code points of s.upper(), and of s.
unfoldable pub upper : String → List ℕ
upper String.[] = []
upper (String.◌∷◌ c s) =
    (if between 97 122 (code c) then (code c - 32) ∷ [] else special_upper (code c)) ++ upper s

unfoldable pub codes : String → List ℕ
codes String.[] = []
codes (String.◌∷◌ c s) = code c ∷ codes s

abbrev starts : List ℕ → List ℕ → Bool
starts [] text = true
starts (k ∷ ks) [] = false
starts (k ∷ ks) (c ∷ text) = k == c && starts ks text

-- word in text
unfoldable pub occurs : List ℕ → List ℕ → Bool
occurs word [] = starts word []
occurs word (c ∷ text) = starts word (c ∷ text) || occurs word text
