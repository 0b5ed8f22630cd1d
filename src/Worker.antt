-- ===== src/Worker.antt =====
-- `ConnectionWorker` of src/QueryQueue.cpp: the queue of one connection, its worker thread, and the
-- main thread, as a step relation. One step is one critical section, one access to an atomic, one
-- notification, or the part of `loop` that runs a job; the two threads interleave in any order.
pub mod Order
pub mod Count
pub mod Shutdown
pub mod Return
mod Tests
use omp_my_sql.Prelude.{
  ℕ, suc, ◌+◌, Bool, true, false, List, [], ◌∷◌, ◌++◌, ◌≡◌, ◌≢◌, if◌then◌else◌,
}

-- What `loop` does with a job: destroy a statement, hand the job to a blocked caller, or push it to
-- the completed sink. `J` is the type of jobs.
pub data Route : Type 0 where
  teardown sync async : Route

-- Where the worker thread stands in `loop`.
pub data WorkerPc (J : Type 0) : Type 0 where
  top : WorkerPc J  -- before the lock, or woken inside `wait`
  about_to_block : WorkerPc J  -- the predicate was false; the mutex is still held
  blocked : WorkerPc J
  executing : J → WorkerPc J
  delivered : WorkerPc J  -- before `pending_.fetch_sub(1)`
  exited : WorkerPc J

-- Where the main thread stands in `enqueue` and `stop`.
pub data MainPc : Type 0 where
  idle : MainPc
  pushed : MainPc  -- before `pending_.fetch_add(1)`
  counted : MainPc  -- before `notify_one`
  stopping : MainPc  -- before `notify_all`
  joining : MainPc
  stopped : MainPc

pub record System (J : Type 0) : Type 0 where
  pub main : MainPc
  pub worker : WorkerPc J
  pub running : Bool
  pub input : List J
  -- `pending_` is `added - finished`
  pub added : ℕ
  pub finished : ℕ
  -- the completed sink, and the jobs handed to blocked callers
  pub completed : List J
  pub returned : List J
  -- history: every job enqueued, and every job taken from the queue
  pub history : List J
  pub taken : List J

abbrev pub init : {J : Type 0} → System J
init = record {
  main = idle;
  worker = top;
  running = true;
  input = [];
  added = 0;
  finished = 0;
  completed = [];
  returned = [];
  history = [];
  taken = [];
}

-- A notification wakes the worker only if it is blocked.
abbrev pub wake : {J : Type 0} → WorkerPc J → WorkerPc J
wake blocked = top
wake w = w

-- Does the worker hold the mutex of the queue?
abbrev pub holds_lock : {J : Type 0} → WorkerPc J → Bool
holds_lock about_to_block = true
holds_lock _ = false

module _ {J : Type 0} (route : J → Route) (run : J → J) where
  -- Where a finished job goes.
  abbrev pub deliver : Route → J → System J → System J
  deliver teardown j s = record s { worker = delivered }
  deliver sync j s = record s { worker = delivered; returned = s.returned ++ run j ∷ [] }
  deliver async j s = record s { worker = delivered; completed = s.completed ++ run j ∷ [] }

  pub data Step (s : System J) : System J → Type 0 where
    -- `enqueue`
    push :
        (j : J)
        → s.main ≡ idle
        → holds_lock s.worker ≡ false
        → Step s
            (record s { main = pushed; input = s.input ++ j ∷ []; history = s.history ++ j ∷ [] })
    count : s.main ≡ pushed → Step s (record s { main = counted; added = suc s.added })
    notify_one : s.main ≡ counted → Step s (record s { main = idle; worker = wake s.worker })
    -- `stop`
    clear_running :
        s.main ≡ idle → s.running ≡ true → Step s (record s { main = stopping; running = false })
    notify_all : s.main ≡ stopping → Step s (record s { main = joining; worker = wake s.worker })
    join :
        s.main ≡ joining
        → s.worker ≡ exited
        → Step s (record s { main = stopped; input = []; added = 0; finished = 0 })
    -- `loop`
    check :
        s.worker ≡ top
        → s.running ≡ true
        → s.input ≡ []
        → Step s (record s { worker = about_to_block })
    block : s.worker ≡ about_to_block → Step s (record s { worker = blocked })
    leave :
        s.worker ≡ top → s.running ≡ false → s.input ≡ [] → Step s (record s { worker = exited })
    take :
        (j : J) (rest : List J)
        → s.worker ≡ top
        → s.input ≡ j ∷ rest
        → Step s (record s { worker = executing j; input = rest; taken = s.taken ++ j ∷ [] })
    finish : (j : J) → s.worker ≡ executing j → Step s (deliver (route j) j s)
    discount : s.worker ≡ delivered → Step s (record s { worker = top; finished = suc s.finished })

  pub data Reach (s : System J) : System J → Type 0 where
    here : Reach s s
    next : {t u : System J} → Reach s t → Step t u → Reach s u
