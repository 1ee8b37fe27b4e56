-- ===== src/Orchestration/Registry/Registration.antt =====
-- src/nexusflow/orchestration/registry.py: registrations, and what is seen of their sessions.
use nexusflow.Base.{
  ℕ, String, ◌+◌, ◌++◌, ◌≤◌, ◌≡◌, ◌≢◌, refl, sym, inl, inr, Bool, true, false, none, some, List, [],
  ◌∷◌, leb, any, ◌==◌, arith, subst, Bool-cases, ==_refl,
}
use nexusflow.Store.Table.{select_first, row_count}
use nexusflow.Store.Table.Laws.{
  row_count-update_at, row_count-append, row_count-any, select_first-append_new,
}
use nexusflow.Orchestration.Registry.{
  WorkerSessionRecord, WorkerRegistry, is_session, set_session, new_session, register, get_snapshot,
}
use nexusflow.Orchestration.Registry.Liveness.{IsKeyed, any_of_none}

-- The registry keeps one record for a session id.
set_session-IsKeyed :
    (registry : WorkerRegistry) (rec : WorkerSessionRecord)
    → IsKeyed registry
    → IsKeyed (record registry { sessions = set_session rec registry.sessions })
unfolding row_count
set_session-IsKeyed registry rec keyed =
    elim (Bool-cases (any (is_session rec.session_id) registry.sessions)) [
      | inl old ↦ record {
        one = λ id. rw old (
            subst (λ n. n ≤ 1)
              (sym (
                row_count-update_at (is_session id) (is_session rec.session_id) (λ r. rec)
                  registry.sessions (λ y h. ground (arith, h))))
              (keyed.one id));
      }
      | inr fresh ↦ record {
        one = λ id. rw fresh (
            ground (
              arith,
              keyed.one id,
              row_count-append (is_session id) registry.sessions (rec ∷ []),
              row_count-any (is_session rec.session_id) registry.sessions fresh,
              one_more id,
            ));
      }
    ]
  where
    one_more : (id : ℕ) → (rec.session_id == id) ≡ true → rec.session_id ≡ id
    one_more id e = ground arith

-- A registration, under any generated id, leaves one record at most for each session id.
pub register-IsKeyed :
    (id : ℕ) (worker_id : String) (capabilities : List String) (accepting : Bool) (now now_utc : ℕ)
    (registry : WorkerRegistry)
    → IsKeyed registry
    → IsKeyed (register id worker_id capabilities accepting now now_utc registry).1
unfolding register
register-IsKeyed id worker_id capabilities accepting now now_utc registry keyed =
    set_session-IsKeyed registry (new_session id worker_id capabilities accepting now now_utc) keyed

append_other :
    (p : WorkerSessionRecord → Bool) (sessions : List WorkerSessionRecord)
    (rec : WorkerSessionRecord)
    → p rec ≡ false
    → select_first p (sessions ++ rec ∷ []) ≡ select_first p sessions
unfolding select_first
append_other p [] rec e = rw e refl
append_other p (s ∷ sessions) rec e = ground (arith, append_other p sessions rec e)

-- A registration under an id that no session has: its snapshot shows what was registered, live until
-- the liveness timeout has passed since the registration and not after, and the snapshot of every other
-- session is what it would be without the registration.
pub register-get_snapshot :
    (id : ℕ) (worker_id : String) (capabilities : List String) (accepting : Bool)
    (now now_utc later : ℕ) (registry : WorkerRegistry)
    → select_first (is_session id) registry.sessions ≡ none
    → (other : ℕ) → other ≢ id
    → (get_snapshot id later (register id worker_id capabilities accepting now now_utc registry).1
        ≡ some (record {
          session_id = id;
          worker_id = worker_id;
          capabilities = capabilities;
          live = leb later (now + registry.liveness_timeout);
          accepting_new_work = accepting;
          last_heartbeat_utc = now_utc;
        }))
      × (get_snapshot other later
            (register id worker_id capabilities accepting now now_utc registry).1
          ≡ get_snapshot other later registry)
unfolding register get_snapshot
register-get_snapshot id worker_id capabilities accepting now now_utc later registry fresh other
      apart =
    let rec = new_session id worker_id capabilities accepting now now_utc in
    let unknown = any_of_none (is_session id) registry.sessions fresh in
    let misses : is_session other rec ≡ false = ground (arith, apart) in
    (
      rw (unknown, select_first-append_new (is_session id) registry.sessions rec fresh (==_refl id))
          refl,
      rw (unknown, append_other (is_session other) registry.sessions rec misses) refl,
    )
