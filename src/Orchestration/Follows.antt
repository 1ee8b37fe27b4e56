-- ===== src/Orchestration/Follows.antt =====
-- src/nexusflow/orchestration: a pass leads from database to database by transactions only.
use nexusflow.Base.{ℕ, Bool, true, false, List, [], ◌∷◌, Result, ok, err, ◌≡◌, refl, if◌then◌else◌}
use nexusflow.Store.Records.{Db}
use nexusflow.Lifecycle.Step.{Step, Reach, here, then_step}
use nexusflow.Orchestration.Pass.{
  Pass, Setting, World, Delivery, ◌>>=◌, ◌>>◌, done, for_each, found_db, continue_with, left_behind,
  look, transact, transact_or_raise, now, queue_delivery,
}

pub Reach-trans : {a b c : Db} → Reach a b → Reach b c → Reach a c
Reach-trans ab here = ab
Reach-trans ab (then_step bc step) = then_step (Reach-trans ab bc) step

-- Wherever the pass begins, the database that it leaves, by return or by exception, is one that
-- transactions reach.
pub record Follows {A : Type 0} (p : Pass A) : Type 0 where
  pub reaches : (w : World) → Reach w.db (p w).1.db

-- What the others do, they do by transactions.
abbrev pub OnlyTransacts : Setting → Type 0
OnlyTransacts setting = (i : ℕ) (db : Db) → Reach db (setting.others i db)

module _ {A B : Type 0} (f : A → Pass B) (hf : (x : A) → Follows (f x)) where
  pub continue_with-Reach :
      (start : Db) (r : Result A) (w : World)
      → Reach start w.db
      → Reach start (continue_with (r, w) f).1.db
  continue_with-Reach start (ok x) w h = Reach-trans h ((hf x).reaches w)
  continue_with-Reach start (err e) w h = h

pub Follows-bind :
    {A B : Type 0} (p : Pass A) (f : A → Pass B)
    → Follows p
    → ((x : A) → Follows (f x))
    → Follows (p >>= f)
unfolding ◌>>=◌
Follows-bind p f hp hf = record {
  reaches = λ w. continue_with-Reach f hf w.db (p w).0 (p w).1 (hp.reaches w);
}

pub Follows-then :
    {A B : Type 0} (p : Pass A) (q : Pass B) → Follows p → Follows q → Follows (p >> q)
unfolding ◌>>◌
Follows-then p q hp hq = record {
  reaches = λ w. continue_with-Reach (λ x. q) (λ x. hq) w.db (p w).0 (p w).1 (hp.reaches w);
}

pub Follows-if :
    {A : Type 0} (b : Bool) (p q : Pass A) → Follows p → Follows q → Follows (if b then p else q)
Follows-if true p q hp hq = hp
Follows-if false p q hp hq = hq

pub Follows-done : Follows done
unfolding done
Follows-done = record { reaches = λ w. here }

pub Follows-for_each :
    {A : Type 0} (xs : List A) (body : A → Pass (Unit {0}))
    → ((x : A) → Follows (body x))
    → Follows (for_each xs body)
unfolding for_each
Follows-for_each [] body h = Follows-done
Follows-for_each (x ∷ xs) body h =
    Follows-then (body x) (for_each xs body) (h x) (Follows-for_each xs body h)

module _ (setting : Setting) (only : OnlyTransacts setting) where
  pub Follows-look : {A : Type 0} (f : Db → A) → Follows (look setting f)
  unfolding look
  Follows-look f = record { reaches = λ w. only w.instant w.db }

  pub Follows-transact :
      {A : Type 0} (f : Db → A × Db) → ((db : Db) → Step db (f db).1) → Follows (transact setting f)
  unfolding transact
  Follows-transact f step = record {
    reaches = λ w. then_step (only w.instant w.db) (step (found_db setting w));
  }

  left_behind-Reach :
      {A : Type 0} (start db : Db) (r : Result (A × Db))
      → ((x : A) (db' : Db) → r ≡ ok (x, db') → Step db db')
      → Reach start db
      → Reach start (left_behind db r).1
  left_behind-Reach start db (ok (x, db')) step h = then_step h (step x db' refl)
  left_behind-Reach start db (err e) step h = h

  pub Follows-transact_or_raise :
      {A : Type 0} (f : Db → Result (A × Db))
      → ((db : Db) (x : A) (db' : Db) → f db ≡ ok (x, db') → Step db db')
      → Follows (transact_or_raise setting f)
  unfolding transact_or_raise
  Follows-transact_or_raise f step = record {
    reaches = λ w.
        left_behind-Reach w.db (found_db setting w) (f (found_db setting w))
          (step (found_db setting w)) (only w.instant w.db);
  }

  pub Follows-now : Follows (now setting)
  unfolding now
  Follows-now = record { reaches = λ w. here }

  pub Follows-queue_delivery :
      (session_id : ℕ) (item : Delivery) → Follows (queue_delivery setting session_id item)
  unfolding queue_delivery
  Follows-queue_delivery session_id item = record { reaches = λ w. here }

pub ruleset follows_rules = (Follows-bind, Follows-then, Follows-if, Follows-done, Follows-for_each)
