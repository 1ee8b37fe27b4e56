-- ===== src/Store/Table/Laws.antt =====
-- How the selections and counts of a table change under an update.
use nexusflow.Base.{
  ◌+◌, ◌≤◌, ◌≡◌, refl, Bool, true, false, none, some, List, [], ◌∷◌, ◌++◌, if◌then◌else◌, arith,
  All, any, subst,
}
use nexusflow.Store.Table.{update_where, row_count, select_first}

module _ {ℓ} {A : Type ℓ} where
  -- An update that leaves the selection's test alone changes the selected row in place.
  pub select_first-update_where :
      (q p : A → Bool) (f : A → A) (xs : List A) (x : A)
      → ((y : A) → q (f y) ≡ q y)
      → select_first q xs ≡ some x
      → select_first q (update_where p f xs) ≡ some (if p x then f x else x)
  unfolding select_first update_where
  select_first-update_where q p f [] x same e = absurd (cc)
  select_first-update_where q p f (y ∷ ys) x same e =
      ground (arith, same y, select_first-update_where q p f ys x same)

  -- An update that finds no row changes nothing.
  pub update_where_none :
      (p : A → Bool) (f : A → A) (xs : List A) → row_count p xs ≡ 0 → update_where p f xs ≡ xs
  unfolding row_count update_where
  update_where_none p f [] h = refl
  update_where_none p f (x ∷ xs) h = ground (arith, update_where_none p f xs)

  pub row_count-append :
      (p : A → Bool) (xs ys : List A) → row_count p (xs ++ ys) ≡ row_count p xs + row_count p ys
  unfolding row_count
  row_count-append p [] ys = omega arith
  row_count-append p (x ∷ xs) ys = omega (arith, row_count-append p xs ys)

  -- Rows that leave the count of q are those that the update finds.
  pub row_count-update_leave :
      (q p : A → Bool) (f : A → A) (xs : List A)
      → ((x : A) → p x ≡ true → q x ≡ true)
      → ((x : A) → q (f x) ≡ false)
      → row_count q (update_where p f xs) + row_count p xs ≡ row_count q xs
  unfolding row_count update_where
  row_count-update_leave q p f [] inside gone = refl
  row_count-update_leave q p f (x ∷ xs) inside gone =
      ground (arith, inside x, gone x, row_count-update_leave q p f xs inside gone)

  -- An update never brings a row into the count of q if it brings in none of the rows it changes.
  pub row_count-update_le :
      (q p : A → Bool) (f : A → A) (xs : List A)
      → ((x : A) → p x ≡ true → q (f x) ≡ true → q x ≡ true)
      → row_count q (update_where p f xs) ≤ row_count q xs
  unfolding row_count update_where
  row_count-update_le q p f [] back = omega arith
  row_count-update_le q p f (x ∷ xs) back =
      ground (arith, back x, row_count-update_le q p f xs back)

  pub All-update_where {κ} :
      (P : A → Type κ) (p : A → Bool) (f : A → A) (xs : List A)
      → ((x : A) → p x ≡ true → P x → P (f x))
      → All P xs
      → All P (update_where p f xs)
  unfolding update_where
  All-update_where P p f [] keep h = tt
  All-update_where P p f (x ∷ xs) keep h = (head (p x) refl, All-update_where P p f xs keep h.1)
    where
      head : (b : Bool) → p x ≡ b → P (if b then f x else x)
      head true e = keep x e h.0
      head false e = h.0

  pub select_first-All {κ} :
      (P : A → Type κ) (q : A → Bool) (xs : List A) (x : A)
      → All P xs
      → select_first q xs ≡ some x
      → P x
  unfolding select_first
  select_first-All P q [] x h e = absurd (cc)
  select_first-All P q (y ∷ ys) x h e = go (select_first-All P q ys x h.1) (q y) e
    where
      go :
          (select_first q ys ≡ some x → P x)
          → (b : Bool) → (if b then some y else select_first q ys) ≡ some x
          → P x
      go rest true e' = subst P (cc) h.0
      go rest false e' = rest e'

  pub select_first-satisfies :
      (q : A → Bool) (xs : List A) (x : A) → select_first q xs ≡ some x → q x ≡ true
  unfolding select_first
  select_first-satisfies q [] x e = absurd (cc)
  select_first-satisfies q (y ∷ ys) x e = ground (arith, select_first-satisfies q ys x)

  pub row_count-pos :
      (q : A → Bool) (xs : List A) (x : A) → select_first q xs ≡ some x → 1 ≤ row_count q xs
  unfolding select_first row_count
  row_count-pos q [] x e = absurd (cc)
  row_count-pos q (y ∷ ys) x e = ground (arith, row_count-pos q ys x)

  -- A selection by a finer test finds the only row of the coarser one.
  pub select_first_unique :
      (p q : A → Bool) (xs : List A) (x : A)
      → ((y : A) → p y ≡ true → q y ≡ true)
      → row_count q xs ≤ 1
      → select_first p xs ≡ some x
      → select_first q xs ≡ some x
  unfolding select_first row_count
  select_first_unique p q [] x finer one e = absurd (cc)
  select_first_unique p q (y ∷ ys) x finer one e = ground (
    arith,
    finer y,
    finer x,
    select_first-satisfies p ys x,
    row_count-pos q ys x,
    select_first_unique p q ys x finer,
  )

  pub select_first-append :
      (q : A → Bool) (xs ys : List A) (x : A)
      → select_first q xs ≡ some x
      → select_first q (xs ++ ys) ≡ some x
  unfolding select_first
  select_first-append q [] ys x e = absurd (cc)
  select_first-append q (z ∷ zs) ys x e = ground (arith, select_first-append q zs ys x)

  pub row_count-any : (q : A → Bool) (xs : List A) → any q xs ≡ false → row_count q xs ≡ 0
  unfolding row_count
  row_count-any q [] e = refl
  row_count-any q (x ∷ xs) e = ground (arith, row_count-any q xs)

  -- An update whose first row is missing changes nothing.
  pub update_where_absent :
      (p : A → Bool) (f : A → A) (xs : List A) → select_first p xs ≡ none → update_where p f xs ≡ xs
  unfolding select_first update_where
  update_where_absent p f [] e = refl
  update_where_absent p f (x ∷ xs) e = ground (arith, update_where_absent p f xs)

  -- The first row of a test is the first of every finer test that it passes.
  pub select_first_finer :
      (p q : A → Bool) (xs : List A) (x : A)
      → ((y : A) → p y ≡ true → q y ≡ true)
      → select_first q xs ≡ some x
      → p x ≡ true
      → select_first p xs ≡ some x
  unfolding select_first
  select_first_finer p q [] x finer e h = absurd (cc)
  select_first_finer p q (y ∷ ys) x finer e h =
      ground (arith, finer y, select_first_finer p q ys x finer)

  pub select_first-any :
      (p q : A → Bool) (xs : List A) (x : A)
      → ((y : A) → p y ≡ true → q y ≡ true)
      → select_first p xs ≡ some x
      → any q xs ≡ true
  unfolding select_first
  select_first-any p q [] x finer e = absurd (cc)
  select_first-any p q (y ∷ ys) x finer e = ground (arith, finer y, select_first-any p q ys x finer)

  -- An update brings no row into a test that it leaves false.
  pub any-update_where :
      (q p : A → Bool) (f : A → A) (xs : List A)
      → ((x : A) → p x ≡ true → q (f x) ≡ true → q x ≡ true)
      → any q xs ≡ false
      → any q (update_where p f xs) ≡ false
  unfolding update_where
  any-update_where q p f [] back e = refl
  any-update_where q p f (x ∷ xs) back e = ground (arith, back x, any-update_where q p f xs back)

  pub any_of_row_count : (q : A → Bool) (xs : List A) → row_count q xs ≡ 0 → any q xs ≡ false
  unfolding row_count
  any_of_row_count q [] e = refl
  any_of_row_count q (x ∷ xs) e = ground (arith, any_of_row_count q xs)

  -- A row that is appended is the first of a test that no row passed before.
  pub select_first-append_new :
      (q : A → Bool) (xs : List A) (x : A)
      → select_first q xs ≡ none
      → q x ≡ true
      → select_first q (xs ++ x ∷ []) ≡ some x
  unfolding select_first
  select_first-append_new q [] x e h = rw h refl
  select_first-append_new q (y ∷ ys) x e h = ground (arith, select_first-append_new q ys x)

  -- An update that leaves a test alone on the rows that it changes.
  pub select_first-update_at :
      (q p : A → Bool) (f : A → A) (xs : List A) (x : A)
      → ((y : A) → p y ≡ true → q (f y) ≡ q y)
      → select_first q xs ≡ some x
      → select_first q (update_where p f xs) ≡ some (if p x then f x else x)
  unfolding select_first update_where
  select_first-update_at q p f [] x same e = absurd (cc)
  select_first-update_at q p f (y ∷ ys) x same e =
      ground (arith, same y, select_first-update_at q p f ys x same)

  pub row_count-update_at :
      (q p : A → Bool) (f : A → A) (xs : List A)
      → ((y : A) → p y ≡ true → q (f y) ≡ q y)
      → row_count q (update_where p f xs) ≡ row_count q xs
  unfolding row_count update_where
  row_count-update_at q p f [] same = refl
  row_count-update_at q p f (x ∷ xs) same =
      ground (arith, same x, row_count-update_at q p f xs same)

  selected_count :
      (p q : A → Bool) (xs : List A) (x : A)
      → select_first p xs ≡ some x
      → q x ≡ true
      → 1 ≤ row_count q xs
  unfolding select_first row_count
  selected_count p q [] x e h = absurd (cc)
  selected_count p q (y ∷ ys) x e h = ground (arith, selected_count p q ys x)

  -- A row that some test selects is the only row of a test that it passes.
  pub select_first_found :
      (p q : A → Bool) (xs : List A) (x : A)
      → row_count q xs ≤ 1
      → select_first p xs ≡ some x
      → q x ≡ true
      → select_first q xs ≡ some x
  unfolding select_first row_count
  select_first_found p q [] x one e h = absurd (cc)
  select_first_found p q (y ∷ ys) x one e h =
      ground (arith, selected_count p q ys x, select_first_found p q ys x)
