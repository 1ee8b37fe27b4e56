-- ===== src/Orchestration/Registry/Liveness.antt =====
-- src/nexusflow/orchestration/registry.py: heartbeats, routing, and the sessions that are lost.
use mathlib.Core.Option.{some-injective}
use nexusflow.Base.{
  ℕ, String, ◌+◌, ◌≤◌, ◌≡◌, ◌∙◌, refl, sym, ap, inl, inr, Bool, true, false, not, ◌&&◌, none, some,
  List, [], ◌∷◌, map, contains, leb, any, ◌==◌, arith, subst, Bool-cases, Option-cases, ==_refl,
}
use nexusflow.Store.Table.{select_first, select_all, row_count}
use nexusflow.Store.Table.Laws.{
  select_first_found, select_first-update_at, select_first-any, select_first_unique,
  select_first-satisfies,
}
use nexusflow.Orchestration.Registry.{
  WorkerSessionRecord, WorkerSessionSnapshot, WorkerRegistry, is_session, is_live, snapshot_of,
  set_session, beat, heartbeat, get_snapshot, is_eligible, find_eligible_worker_for_activity,
  find_lost_sessions,
}

-- Each session id is the key of one record at most.
pub record IsKeyed (registry : WorkerRegistry) : Type 0 where
  pub one : (id : ℕ) → row_count (is_session id) registry.sessions ≤ 1

lost_ids :
    (id : ℕ) (lost : WorkerSessionRecord → Bool) (sessions : List WorkerSessionRecord)
    → any (λ i. i == id) (map (λ rec. rec.session_id) (select_all lost sessions))
      ≡ any (λ rec. is_session id rec && lost rec) sessions
unfolding select_all
lost_ids id lost [] = refl
lost_ids id lost (rec ∷ sessions) = elim (Bool-cases (lost rec)) [
  | inl gone ↦ ground (arith, gone, lost_ids id lost sessions)
  | inr alive ↦ ground (arith, alive, lost_ids id lost sessions)
]

pub any_of_none :
    (p : WorkerSessionRecord → Bool) (sessions : List WorkerSessionRecord)
    → select_first p sessions ≡ none
    → any p sessions ≡ false
unfolding select_first
any_of_none p [] e = refl
any_of_none p (rec ∷ sessions) e = ground (arith, any_of_none p sessions)

module _ (registry : WorkerRegistry) where
  eligible_row :
      (activity_type : String) (now : ℕ) (snapshot : WorkerSessionSnapshot)
      → find_eligible_worker_for_activity activity_type now registry ≡ some snapshot
      → (rec : WorkerSessionRecord) × (select_first
            (is_eligible activity_type registry.liveness_timeout now)
            registry.sessions
          ≡ some rec)
        × (snapshot ≡ snapshot_of true rec)
  unfolding find_eligible_worker_for_activity
  eligible_row activity_type now snapshot e =
      elim (Option-cases (
        select_first (is_eligible activity_type registry.liveness_timeout now) registry.sessions)) [
          | inl missing ↦ absurd (ground (arith, rw missing at e))
          | inr (rec, found) ↦ (rec, found, some-injective _ _ (sym (rw found at e)))
        ]

  not_lost :
      (now : ℕ) (rec : WorkerSessionRecord)
      → IsKeyed registry
      → select_first (is_session rec.session_id) registry.sessions ≡ some rec
      → is_live registry.liveness_timeout now rec ≡ true
      → any (λ i. i == rec.session_id) (find_lost_sessions now registry) ≡ false
  unfolding find_lost_sessions
  not_lost now rec keyed found alive =
      lost_ids rec.session_id (λ r. not (is_live registry.liveness_timeout now r)) registry.sessions
      ∙ elim (Option-cases (select_first lost registry.sessions)) [
        | inl missing ↦ any_of_none lost registry.sessions missing
        | inr (r, e) ↦
            let at_r =
              select_first_unique lost (is_session rec.session_id) registry.sessions r
                (λ x h. ground arith) (keyed.one rec.session_id) e in
            let same : r ≡ rec = some-injective _ _ (sym at_r ∙ found) in
            absurd (
              ground (
                arith,
                alive,
                select_first-satisfies lost registry.sessions r e,
                ap (is_live registry.liveness_timeout now) same,
              ))
      ]
    where
      lost : WorkerSessionRecord → Bool
      lost r = is_session rec.session_id r && not (is_live registry.liveness_timeout now r)

  keyed_row :
      (activity_type : String) (now : ℕ) (rec : WorkerSessionRecord)
      → IsKeyed registry
      → select_first (is_eligible activity_type registry.liveness_timeout now) registry.sessions
        ≡ some rec
      → select_first (is_session rec.session_id) registry.sessions ≡ some rec
  keyed_row activity_type now rec keyed e =
      select_first_found (is_eligible activity_type registry.liveness_timeout now)
        (is_session rec.session_id) registry.sessions rec (keyed.one rec.session_id) e
        (==_refl rec.session_id)

  -- What is asserted of a snapshot that is routed to.
  abbrev IsRouted : String → ℕ → WorkerSessionSnapshot → Type 0
  IsRouted activity_type now snapshot =
      (get_snapshot snapshot.session_id now registry ≡ some snapshot)
      × (snapshot.live ≡ true)
      × (snapshot.accepting_new_work ≡ true)
      × (contains snapshot.capabilities activity_type ≡ true)
      × (any (λ i. i == snapshot.session_id) (find_lost_sessions now registry) ≡ false)

  -- A worker that is found for an activity has the snapshot that the registry gives of its session:
  -- it is live, accepts work and advertises the activity, and its session is not among the lost ones.
  pub find_eligible_worker_for_activity-live :
      (activity_type : String) (now : ℕ) (snapshot : WorkerSessionSnapshot)
      → IsKeyed registry
      → find_eligible_worker_for_activity activity_type now registry ≡ some snapshot
      → (get_snapshot snapshot.session_id now registry ≡ some snapshot)
        × (snapshot.live ≡ true)
        × (snapshot.accepting_new_work ≡ true)
        × (contains snapshot.capabilities activity_type ≡ true)
        × (any (λ i. i == snapshot.session_id) (find_lost_sessions now registry) ≡ false)
  unfolding get_snapshot
  find_eligible_worker_for_activity-live activity_type now snapshot keyed e =
      let row = eligible_row activity_type now snapshot e in
      let rec = row.0 in
      let fits =
        select_first-satisfies (is_eligible activity_type registry.liveness_timeout now)
          registry.sessions rec row.1 in
      let found = keyed_row activity_type now rec keyed row.1 in
      let alive : is_live registry.liveness_timeout now rec ≡ true = ground (arith, fits) in
      subst (IsRouted activity_type now) (sym row.2) (
        rw (found, alive) refl,
        refl,
        ground (arith, fits),
        ground (arith, fits),
        not_lost now rec keyed found alive,
      )

-- The sessions after the heartbeat of a session that is there.
beaten :
    (id : ℕ) (accepting : Bool) (now now_utc : ℕ) (registry : WorkerRegistry)
    (rec : WorkerSessionRecord)
    → select_first (is_session id) registry.sessions ≡ some rec
    → select_first (is_session id) (set_session (beat accepting now now_utc rec) registry.sessions)
      ≡ some (beat accepting now now_utc rec)
beaten id accepting now now_utc registry rec found =
    let hit = select_first-satisfies (is_session id) registry.sessions rec found in
    rw
      (select_first-any (is_session id) (is_session rec.session_id) registry.sessions rec
        (λ y h. ground (arith, h, hit)) found)
      (select_first-update_at (is_session id) (is_session rec.session_id)
          (λ old. beat accepting now now_utc rec) registry.sessions rec
          (λ y h. ground (arith, h, hit)) found
        ∙ rw (==_refl rec.session_id) refl)

-- A heartbeat that finds its session makes it live: until the liveness timeout has passed since the
-- heartbeat, its snapshot is live, and accepts work as the heartbeat said.
pub heartbeat-get_snapshot :
    (id : ℕ) (accepting : Bool) (now now_utc later : ℕ) (registry : WorkerRegistry)
    → (heartbeat id accepting now now_utc registry).0 ≡ true
    → later ≤ now + registry.liveness_timeout
    → (snapshot : WorkerSessionSnapshot) × (get_snapshot id later
          (heartbeat id accepting now now_utc registry).1
        ≡ some snapshot)
      × (snapshot.live ≡ true)
      × (snapshot.accepting_new_work ≡ accepting)
unfolding heartbeat get_snapshot
heartbeat-get_snapshot id accepting now now_utc later registry known soon =
    elim (Option-cases (select_first (is_session id) registry.sessions)) [
      | inl missing ↦ absurd (ground (arith, rw missing at known))
      | inr (rec, found) ↦ (
        snapshot_of (leb later (now + registry.liveness_timeout)) (beat accepting now now_utc rec),
        rw (found, beaten id accepting now now_utc registry rec found) refl,
        ground (arith, soon),
        refl,
      )
    ]
