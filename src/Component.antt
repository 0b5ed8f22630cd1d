-- ===== src/Component.antt =====
-- `MySQLComponent` of src/MySQLComponent.hpp and src/MySQLComponent.cpp, as the main thread sees it:
-- the registries of connections, workers, options, statements and models, the query guards and the
-- cached results. A pointer to a connection is its address; times are numbers of the steady clock.
mod State
pub mod Rate
pub mod Guards
pub mod Registry
pub mod Policy
pub mod Cache
mod Tests
unfoldable pub use State.*
use omp_my_sql.Prelude.{
  ℕ, suc, ◌+◌, ◌*◌, Bool, true, false, not, ◌&&◌, List, [], ◌∷◌, ◌++◌, Bytes, codes, length, leb,
  ltb, ◌==◌, Option, none, some, if◌then◌else◌,
}
use omp_my_sql.Prelude.Int.{ℤ, pos}
use omp_my_sql.Prelude.Map.{Map, lookup, put, emplace, erase}
use omp_my_sql.Sql.{is_multi_statement}
use omp_my_sql.Result.{QueryResult}
use omp_my_sql.Connection.Options.{ConnectionOptions, default_options}
use omp_my_sql.Model.{Model}
use omp_my_sql.Statement.{PreparedStatement}
use omp_my_sql.Query.{QueryJob, new_job, route}
use omp_my_sql.Worker.Order.{async_only}

-- `addConnection`; the argument is the address of the new object, `none` for a null pointer.
unfoldable pub add_connection : Component → Option ℕ → Bool → Component × ℕ
add_connection c none multi = (c, 0)
add_connection c (some conn) multi =
    let handle = c.next_handle in
    (
      record c {
        next_handle = suc handle;
        connections = emplace handle conn c.connections;
        workers = emplace handle (record { conn = conn; queue = [] }) c.workers;
        multi_statement_allowed = put handle multi c.multi_statement_allowed;
        guards = put handle default_guards c.guards;
      },
      handle,
    )

-- `getConnection`
unfoldable pub get_connection : Component → ℕ → Option ℕ
get_connection c handle = lookup handle c.connections

-- The loop of `connectionHandleOf`.
unfoldable pub handle_of : ℕ → Map ℕ → ℕ
handle_of conn [] = 0
handle_of conn ((handle, owned) ∷ m) = if owned == conn then handle else handle_of conn m

-- `connectionHandleOf`
unfoldable pub connection_handle_of : Component → Option ℕ → ℕ
unfolding handle_of
connection_handle_of c none = 0
connection_handle_of c (some conn) = handle_of conn c.connections

-- `stop` runs what is queued; `run` is what the worker thread does with a job.
unfoldable pub stop_worker : (QueryJob → QueryJob) → ConnectionWorker → Component → Component
stop_worker run w c = record c { completed = c.completed ++ async_only route run w.queue }

-- `removeConnection`
unfoldable pub remove_connection : (QueryJob → QueryJob) → Component → ℕ → Component × Bool
unfolding stop_worker
remove_connection run c handle =
    let stopped : Component = elim (lookup handle c.workers) [
      | none ↦ c
      | some w ↦ record (stop_worker run w c) { workers = erase handle c.workers }
    ] in
    let existed : Bool = elim (lookup handle c.connections) [ none ↦ false | some conn ↦ true ] in
    (
      record stopped {
        multi_statement_allowed = erase handle c.multi_statement_allowed;
        guards = erase handle c.guards;
        rate_log = erase handle c.rate_log;
        connections = erase handle c.connections;
      },
      existed,
    )

unfoldable pub stop_all : (QueryJob → QueryJob) → Map ConnectionWorker → Component → Component
unfolding stop_worker
stop_all run [] c = c
stop_all run ((handle, w) ∷ m) c = stop_all run m (stop_worker run w c)

-- `clearConnections`
unfoldable pub clear_connections : (QueryJob → QueryJob) → Component → Component
unfolding stop_all
clear_connections run c = record (stop_all run c.workers c) {
  workers = [];
  connections = [];
  multi_statement_allowed = [];
  guards = [];
  rate_log = [];
}

-- The `while` of the rate limit: entries before the window are dropped from the front.
unfoldable pub prune : ℕ → ℕ → List ℕ → List ℕ
prune window now [] = []
prune window now (t ∷ log) =
    let rest = prune window now log in if ltb (t + window) now then rest else t ∷ log

-- `rateLog_[handle]`
unfoldable pub log_of : Component → ℕ → List ℕ
log_of c handle = elim (lookup handle c.rate_log) [ none ↦ [] | some log ↦ log ]

-- `guards_[handle]`: an absent entry is default-constructed.
unfoldable pub guards_at : Component → ℕ → QueryGuards
guards_at c handle = elim (lookup handle c.guards) [ none ↦ default_guards | some g ↦ g ]

-- `multiStatementsAllowed`
unfoldable pub multi_statements_allowed : Component → ℕ → Bool
multi_statements_allowed c handle = elim (lookup handle c.multi_statement_allowed) [
  | none ↦ false
  | some allowed ↦ allowed
]

-- A plain query job carries its SQL; a job that executes a statement does not.
abbrev pub is_plain_query : QueryJob → Bool
is_plain_query job = elim job.statement [ none ↦ true | some s ↦ false ]

-- The rate limit, (4) of `checkGuards`.
unfoldable pub check_rate : Component → QueryGuards → ℕ → ℕ → Component × GuardReject
check_rate c g handle now =
    let log = prune g.rate_window now (log_of c handle) in
    if g.max_queries_per_window == 0
    then (c, none_rejected)
    else if leb g.max_queries_per_window (length log)
    then (record c { rate_log = put handle log c.rate_log }, rate_limited)
    else (record c { rate_log = put handle (log ++ now ∷ []) c.rate_log }, none_rejected)

-- `checkGuards`; the answer is true exactly if the reason is `none_rejected`.
unfoldable pub check_guards : Component → QueryJob → ConnectionWorker → ℕ → Component × GuardReject
unfolding check_rate
check_guards c job w now =
    let handle = job.connection_handle in
    let g = guards_at c handle in
    let c' = record c { guards = emplace handle default_guards c.guards } in
    if is_plain_query job
      && not (g.max_query_length == 0)
      && ltb g.max_query_length (length job.sql)
    then (c', too_long)
    else if is_plain_query job
        && not (multi_statements_allowed c handle)
        && is_multi_statement job.sql
    then (c', multi_statement)
    else if not (g.max_pending_queries == 0) && leb g.max_pending_queries (pending w)
    then (c', too_many_pending)
    else check_rate c' g handle now

-- `ConnectionWorker::enqueue`, on the worker of a handle.
unfoldable pub enqueue : Component → ℕ → ConnectionWorker → QueryJob → Component
enqueue c handle w job = record c {
  workers = put handle (record w { queue = w.queue ++ job ∷ [] }) c.workers;
}

-- `enqueueJob`
unfoldable pub enqueue_job : Component → QueryJob → ℕ → Component × GuardReject
unfolding enqueue
enqueue_job c job now = elim (lookup job.connection_handle c.workers) [
  | none ↦ (c, unknown_handle)
  | some w ↦
      let (c', reason) = check_guards c job w now in
      elim reason [
        | none_rejected ↦ (enqueue c' job.connection_handle w job, none_rejected)
        | other ↦ (c', other)
      ]
]

-- `runJobSync`: the worker runs what is queued and then the job; no job if it was refused.
unfoldable pub run_job_sync :
    (QueryJob → QueryJob) → Component → QueryJob → ℕ → Component × GuardReject × Option QueryJob
run_job_sync run c job now = elim (lookup job.connection_handle c.workers) [
  | none ↦ (c, unknown_handle, none)
  | some w ↦
      let (c', reason) = check_guards c job w now in
      elim reason [
        | none_rejected ↦ (
          record (stop_worker run w c') {
            workers = put job.connection_handle (record w { queue = [] }) c'.workers;
          },
          none_rejected,
          some (run (record job { sync_signal = true })),
        )
        | other ↦ (c', other, none)
      ]
]

-- `guardsFor` with the write that `mysql_set_limit` of src/natives.cpp makes through it.
unfoldable pub set_limit : Component → ℕ → ℕ → ℤ → Component × Bool
set_limit c handle type value = elim (lookup handle c.guards) [
  | none ↦ (c, false)
  | some g ↦ elim value [
    | pos v ↦
        if type == 0
        then (record c { guards = put handle (record g { max_query_length = v }) c.guards }, true)
        else if type == 1
        then (
          record c { guards = put handle (record g { max_pending_queries = v }) c.guards },
          true,
        )
        else if type == 2
        then (
          record c {
            guards =
                put handle (record g { max_queries_per_window = v; rate_window = 1000 }) c.guards;
          },
          true,
        )
        else (c, false)
    | _ ↦ (c, false)
  ]
]

-- `pendingQueries`
unfoldable pub pending_queries : Component → ℕ → ℕ
pending_queries c handle = elim (lookup handle c.workers) [ none ↦ 0 | some w ↦ pending w ]
