-- ===== src/Orchestration/Registry.antt =====
-- src/nexusflow/orchestration/registry.py: the sessions of a WorkerRegistry, in the order of the dict.
-- Its keys are the session ids of its records. A UUID is a number, and so is a time of a clock; the
-- clocks and the generator of ids are arguments. The delivery queues are not modelled.
pub mod Liveness
pub mod Registration
use mathlib.Core.Option
use nexusflow.Base.{
  ℕ, String, ◌+◌, Bool, true, false, not, ◌&&◌, Option, none, some, List, [], ◌∷◌, ◌++◌, map,
  contains, leb, any, ◌==◌, if◌then◌else◌,
}
use nexusflow.Store.Table.{update_where, select_first, select_all}

pub record WorkerSessionRecord : Type 0 where
  pub session_id : ℕ
  pub worker_id : String
  pub capabilities : List String
  pub registered_at_monotonic : ℕ
  pub last_heartbeat_monotonic : ℕ
  pub last_heartbeat_utc : ℕ
  pub accepting_new_work : Bool

pub record WorkerSessionSnapshot : Type 0 where
  pub session_id : ℕ
  pub worker_id : String
  pub capabilities : List String
  pub live : Bool
  pub accepting_new_work : Bool
  pub last_heartbeat_utc : ℕ

pub record WorkerRegistry : Type 0 where
  pub liveness_timeout : ℕ
  pub sessions : List WorkerSessionRecord

abbrev pub is_session : ℕ → WorkerSessionRecord → Bool
is_session id rec = rec.session_id == id

-- now_monotonic - rec.last_heartbeat_monotonic <= liveness_timeout
abbrev pub is_live : ℕ → ℕ → WorkerSessionRecord → Bool
is_live timeout now rec = leb now (rec.last_heartbeat_monotonic + timeout)

abbrev pub snapshot_of : Bool → WorkerSessionRecord → WorkerSessionSnapshot
snapshot_of live rec = record {
  session_id = rec.session_id;
  worker_id = rec.worker_id;
  capabilities = rec.capabilities;
  live = live;
  accepting_new_work = rec.accepting_new_work;
  last_heartbeat_utc = rec.last_heartbeat_utc;
}

-- self._sessions[session_id] = rec
abbrev pub set_session : WorkerSessionRecord → List WorkerSessionRecord → List WorkerSessionRecord
set_session rec sessions =
    if any (is_session rec.session_id) sessions
    then update_where (is_session rec.session_id) (λ old. rec) sessions
    else sessions ++ rec ∷ []

abbrev pub new_session : ℕ → String → List String → Bool → ℕ → ℕ → WorkerSessionRecord
new_session id worker_id capabilities accepting now now_utc = record {
  session_id = id;
  worker_id = worker_id;
  capabilities = capabilities;
  registered_at_monotonic = now;
  last_heartbeat_monotonic = now;
  last_heartbeat_utc = now_utc;
  accepting_new_work = accepting;
}

-- `id` is the generated session id.
unfoldable pub register :
    ℕ → String → List String → Bool → ℕ → ℕ → WorkerRegistry → WorkerSessionRecord × WorkerRegistry
register id worker_id capabilities accepting now now_utc registry = (
  new_session id worker_id capabilities accepting now now_utc,
  record registry {
    sessions =
        set_session (new_session id worker_id capabilities accepting now now_utc) registry.sessions;
  },
)

abbrev pub beat : Bool → ℕ → ℕ → WorkerSessionRecord → WorkerSessionRecord
beat accepting now now_utc rec = record rec {
  last_heartbeat_monotonic = now;
  last_heartbeat_utc = now_utc;
  accepting_new_work = accepting;
}

abbrev pub heartbeat_of :
    Option WorkerSessionRecord → Bool → ℕ → ℕ → WorkerRegistry → Bool × WorkerRegistry
heartbeat_of none accepting now now_utc registry = (false, registry)
heartbeat_of (some rec) accepting now now_utc registry = (
  true,
  record registry { sessions = set_session (beat accepting now now_utc rec) registry.sessions },
)

unfoldable pub heartbeat : ℕ → Bool → ℕ → ℕ → WorkerRegistry → Bool × WorkerRegistry
heartbeat id accepting now now_utc registry =
    heartbeat_of (select_first (is_session id) registry.sessions) accepting now now_utc registry

unfoldable pub get_snapshot : ℕ → ℕ → WorkerRegistry → Option WorkerSessionSnapshot
get_snapshot id now registry =
    Option.map (λ rec. snapshot_of (is_live registry.liveness_timeout now rec) rec)
      (select_first (is_session id) registry.sessions)

abbrev pub is_eligible : String → ℕ → ℕ → WorkerSessionRecord → Bool
is_eligible activity_type timeout now rec =
    is_live timeout now rec && rec.accepting_new_work && contains rec.capabilities activity_type

unfoldable pub find_eligible_worker_for_activity :
    String → ℕ → WorkerRegistry → Option WorkerSessionSnapshot
find_eligible_worker_for_activity activity_type now registry =
    Option.map (snapshot_of true)
      (select_first (is_eligible activity_type registry.liveness_timeout now) registry.sessions)

unfoldable pub find_lost_sessions : ℕ → WorkerRegistry → List ℕ
find_lost_sessions now registry =
    map (λ rec. rec.session_id)
      (select_all (λ rec. not (is_live registry.liveness_timeout now rec)) registry.sessions)
