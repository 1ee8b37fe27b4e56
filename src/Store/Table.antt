-- ===== src/Store/Table.antt =====
-- The SQL statements that the transactions use, on a table that is a list of rows.
pub mod Laws
use nexusflow.Base.{ℕ, ◌+◌, Bool, Option, none, some, List, [], ◌∷◌, if◌then◌else◌}

module _ {ℓ} {A : Type ℓ} where
  -- UPDATE … SET f WHERE p
  unfoldable pub update_where : (A → Bool) → (A → A) → List A → List A
  update_where p f [] = []
  update_where p f (x ∷ xs) = (if p x then f x else x) ∷ update_where p f xs

  -- the number of rows that WHERE p finds, `rowcount` of an update
  unfoldable pub row_count : (A → Bool) → List A → ℕ
  row_count p [] = 0
  row_count p (x ∷ xs) = (if p x then 1 else 0) + row_count p xs

  -- SELECT … WHERE p, the first row
  unfoldable pub select_first : (A → Bool) → List A → Option A
  select_first p [] = none
  select_first p (x ∷ xs) = if p x then some x else select_first p xs

  -- SELECT … WHERE p, all rows
  unfoldable pub select_all : (A → Bool) → List A → List A
  select_all p [] = []
  select_all p (x ∷ xs) = if p x then x ∷ select_all p xs else select_all p xs
