-- ===== src/Samples/Sessions.antt =====
-- src/nexusflow/orchestration/registry.py on two worker sessions.
use nexusflow.Base.{
  ◌≤◌, ◌≡◌, refl, true, none, some, [], ◌∷◌, any, contains, arith, ◌==◌, ◌+◌, false,
}
use nexusflow.Store.Table.{select_first, row_count}
use nexusflow.Orchestration.Registry.{
  WorkerRegistry, WorkerSessionSnapshot, is_session, register, heartbeat, get_snapshot,
  find_eligible_worker_for_activity, find_lost_sessions,
}
use nexusflow.Orchestration.Registry.Registration.{register-IsKeyed, register-get_snapshot}
use nexusflow.Orchestration.Registry.Liveness.{
  IsKeyed, heartbeat-get_snapshot, find_eligible_worker_for_activity-live,
}

abbrev empty : WorkerRegistry
empty = record { liveness_timeout = 15; sessions = [] }

empty-IsKeyed : IsKeyed empty
unfolding row_count
empty-IsKeyed = record { one = λ id. omega arith }

abbrev one_session : WorkerRegistry
one_session = (register 1 "first" ("echo" ∷ []) true 0 0 empty).1

abbrev two_sessions : WorkerRegistry
two_sessions = (register 2 "second" ("echo" ∷ []) true 30 30 one_session).1

abbrev second : WorkerSessionSnapshot
second = record {
  session_id = 2;
  worker_id = "second";
  capabilities = "echo" ∷ [];
  live = true;
  accepting_new_work = true;
  last_heartbeat_utc = 30;
}

no_second : select_first (is_session 2) one_session.sessions ≡ none
unfolding register select_first
no_second = refl

register-get_snapshot_example :
    (get_snapshot 2 31 two_sessions ≡ some second)
    × (get_snapshot 1 31 two_sessions ≡ get_snapshot 1 31 one_session)
unfolding register
register-get_snapshot_example =
    register-get_snapshot 2 "second" ("echo" ∷ []) true 30 30 31 one_session no_second 1
      (omega arith)

two_sessions-IsKeyed : IsKeyed two_sessions
two_sessions-IsKeyed =
    register-IsKeyed 2 "second" ("echo" ∷ []) true 30 30 one_session
      (register-IsKeyed 1 "first" ("echo" ∷ []) true 0 0 empty empty-IsKeyed)

second_found : find_eligible_worker_for_activity "echo" 31 two_sessions ≡ some second
unfolding register find_eligible_worker_for_activity select_first
second_found = refl

find_eligible_worker_for_activity-live_example :
    (get_snapshot 2 31 two_sessions ≡ some second)
    × (second.live ≡ true)
    × (second.accepting_new_work ≡ true)
    × (contains second.capabilities "echo" ≡ true)
    × (any (λ i. i == 2) (find_lost_sessions 31 two_sessions) ≡ false)
find_eligible_worker_for_activity-live_example =
    find_eligible_worker_for_activity-live two_sessions "echo" 31 second two_sessions-IsKeyed
      second_found

first_beats : (heartbeat 1 true 40 40 two_sessions).0 ≡ true
unfolding register heartbeat select_first
first_beats = refl

soon : 50 ≤ 40 + two_sessions.liveness_timeout
unfolding register
soon = omega arith

heartbeat-get_snapshot_example :
    (snapshot : WorkerSessionSnapshot) × (get_snapshot 1 50 (heartbeat 1 true 40 40 two_sessions).1
      ≡ some snapshot)
    × (snapshot.live ≡ true)
    × (snapshot.accepting_new_work ≡ true)
heartbeat-get_snapshot_example =
    heartbeat-get_snapshot 1 true 40 40 50 two_sessions first_beats soon
