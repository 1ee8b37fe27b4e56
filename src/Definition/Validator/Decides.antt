-- ===== src/Definition/Validator/Decides.antt =====
-- src/nexusflow/definition/validator.py: a check that adds no error exactly if a condition holds.
use nexusflow.Base.{
  ℕ, ◌+◌, ◌≤◌, ◌≡◌, refl, sym, ap, ◌∙◌, Bool, true, false, [], ◌∷◌, ◌++◌, Result, ok, err, Error,
  length, arith, leb, if◌then◌else◌, ◌>>=◌, Bool-cases, inl, inr,
}
use nexusflow.Definition.Validator.{
  DefinitionValidationCode, DefinitionValidationError, ErrorPath, Errors, Progress, going, returned,
  next, add_error, refuse_if,
}

-- The check goes on without an error exactly if P holds, and it takes no error away.
pub record Decides (P : Type 0) (check : Errors → Result Progress) : Type 0 where
  pub grows : (es es' : Errors) → check es ≡ ok (going es') → length es ≤ length es'
  pub holds : check [] ≡ ok (going []) → P
  pub passes : P → check [] ≡ ok (going [])

abbrev is_going : Result Progress → ℕ
is_going (ok (going errors)) = 1
is_going _ = 0

-- Where two checks went on, each of them did.
record Middle (r : Result Progress) (k : Errors → Result Progress) (es : Errors) : Type 0 where
  mid : Errors
  first : r ≡ ok (going mid)
  second : k mid ≡ ok (going es)

next-Middle :
    (r : Result Progress) (k : Errors → Result Progress) (es : Errors)
    → next r k ≡ ok (going es)
    → Middle r k es
next-Middle (ok (going mid)) k es e = record { mid = mid; first = refl; second = e }
next-Middle (ok (returned errors)) k es e = absurd (omega (arith, ap is_going e))
next-Middle (err x) k es e = absurd (omega (arith, ap is_going e))

no_errors : (es : Errors) → length es ≤ 0 → es ≡ []
no_errors [] h = refl
no_errors (e ∷ es) h = absurd (omega (arith, h))

module _ {P Q : Type 0} (k l : Errors → Result Progress) (dk : Decides P k) (dl : Decides Q l) where
  both_hold : Middle (k []) l [] → P × Q
  both_hold m =
      let none_yet = no_errors m.mid (dl.grows m.mid [] m.second) in
      (
        dk.holds (m.first ∙ ap (λ es. ok (going es)) none_yet),
        dl.holds (sym (ap l none_yet) ∙ m.second),
      )

  pub next-Decides : Decides (P × Q) (λ es. next (k es) l)
  next-Decides = record {
    grows = λ es es' e.
        let m = next-Middle (k es) l es' e in
        omega (arith, dk.grows es m.mid m.first, dl.grows m.mid es' m.second);
    holds = λ e. both_hold (next-Middle (k []) l [] e);
    passes = λ h. ap (λ r. next r l) (dk.passes h.0) ∙ dl.passes h.1;
  }

abbrev errors_in : Result Progress → ℕ
errors_in (ok (going errors)) = length errors
errors_in (ok (returned errors)) = length errors
errors_in (err e) = 0

length-snoc : (es : Errors) (e : DefinitionValidationError) → length (es ++ e ∷ []) ≡ length es + 1
length-snoc [] e = omega arith
length-snoc (x ∷ es) e = let ih = length-snoc es e in omega (arith, ih)

pub go_on-Decides : Decides Unit (λ es. ok (going es))
go_on-Decides = record {
  grows = λ es es' e. omega (arith, ap errors_in e);
  holds = λ e. tt;
  passes = λ h. refl;
}

-- A check after a test that may raise.
pub guard-Decides :
    {A P : Type 0} (b : Bool) (e : Error) (x : A) (k : A → Errors → Result Progress)
    → Decides P (k x)
    → Decides ((b ≡ true) × P) (λ es. (if b then ok x else err e) >>= λ y. k y es)
guard-Decides true e x k d = record {
  grows = d.grows;
  holds = λ h. (refl, d.holds h);
  passes = λ h. d.passes h.1;
}
guard-Decides false e x k d = record {
  grows = λ es es' h. absurd (omega (arith, ap is_going h));
  holds = λ h. absurd (omega (arith, ap is_going h));
  passes = λ h. absurd (ground (arith, h.0));
}

pub iff-Decides :
    {P Q : Type 0} (k : Errors → Result Progress) → Decides P k → (P → Q) → (Q → P) → Decides Q k
iff-Decides k d to from = record {
  grows = d.grows;
  holds = λ e. to (d.holds e);
  passes = λ h. d.passes (from h);
}

module _ (limit max_errors : ℕ) (code : DefinitionValidationCode) (path : ErrorPath) where
  one_more : (es : Errors) → errors_in (add_error limit max_errors code path es) ≡ length es + 1
  one_more es =
      elim (Bool-cases (leb max_errors (length (es ++ record { code = code; path = path } ∷ [])))) [
        | inl full ↦ rw full (length-snoc es _)
        | inr fits ↦ rw fits (length-snoc es _)
      ]

  pub add_error-Decides : Decides ⊥ (add_error limit max_errors code path)
  add_error-Decides = record {
    grows = λ es es' e. omega (arith, one_more es, ap errors_in e);
    holds = λ e. omega (arith, one_more [], ap errors_in e);
    passes = λ h. absurd h;
  }

  pub refuse_if-Decides :
      (wrong : Bool) → Decides (wrong ≡ false) (refuse_if limit max_errors wrong code path)
  refuse_if-Decides true =
      iff-Decides _ add_error-Decides (λ h. absurd h) (λ h. absurd (ground (arith, h)))
  refuse_if-Decides false = iff-Decides _ go_on-Decides (λ h. refl) (λ h. tt)
