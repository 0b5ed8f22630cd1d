-- ===== src/Worker/Tests.antt =====
-- A run of the worker of src/QueryQueue.cpp with one job, and the theorems at its states.
use Prim.Native.Nat.{◌*◌}
use omp_my_sql.Prelude.{ℕ, ◌+◌, ◌≤◌, false, List, [], ◌∷◌, ◌++◌, ◌≡◌, refl, ◌⊎◌, inr, length}
use omp_my_sql.Worker.{
  Route, async, WorkerPc, about_to_block, executing, exited, MainPc, idle, joining, stopped, System,
  init, Step, push, count, notify_one, clear_running, notify_all, join, check, leave, take, finish,
  discount, Reach, here, next,
}
use omp_my_sql.Worker.Order.{fifo, async_only, sync_only, in_hand}
use omp_my_sql.Worker.Count.{pending_exact, no_stranded_job, held}
use omp_my_sql.Worker.Return.{Steps, none_yet, then_one, stop_returns}
use omp_my_sql.Worker.Shutdown.{stop_drains, stop_loses_wakeup}

abbrev route : ℕ → Route
route j = async

abbrev run : ℕ → ℕ
run j = j + 100

abbrev empty_found : System ℕ
empty_found = record init { worker = about_to_block }

abbrev with_job : System ℕ
with_job = record init { main = MainPc.pushed; input = 7 ∷ []; history = 7 ∷ [] }

abbrev with_counted : System ℕ
with_counted = record with_job { main = MainPc.counted; added = 1 }

abbrev enqueued : System ℕ
enqueued = record with_counted { main = idle }

abbrev taken_job : System ℕ
taken_job = record enqueued { worker = executing 7; input = []; taken = 7 ∷ [] }

abbrev done_job : System ℕ
done_job = record taken_job { worker = WorkerPc.delivered; completed = 107 ∷ [] }

abbrev at_rest : System ℕ
at_rest = record done_job { worker = WorkerPc.top; finished = 1 }

abbrev flagged : System ℕ
flagged = record at_rest { main = MainPc.stopping; running = false }

abbrev notified : System ℕ
notified = record flagged { main = joining }

abbrev left : System ℕ
left = record notified { worker = exited }

abbrev at_end : System ℕ
at_end = record left { main = stopped; input = []; added = 0; finished = 0 }

Reach-empty_found : Reach route run init empty_found
Reach-empty_found = next here (check refl refl refl)

Reach-enqueued : Reach route run init enqueued
Reach-enqueued =
    let a : Step route run init with_job = push 7 refl refl in
    let b : Step route run with_job with_counted = count refl in
    let c : Step route run with_counted enqueued = notify_one refl in next (next (next here a) b) c

Reach-at_end : Reach route run init at_end
Reach-at_end =
    let a : Step route run enqueued taken_job = take 7 [] refl refl in
    let b : Step route run taken_job done_job = finish 7 refl in
    let c : Step route run done_job at_rest = discount refl in
    let d : Step route run at_rest flagged = clear_running refl refl in
    let e : Step route run flagged notified = notify_all refl in
    let f : Step route run notified left = leave refl refl refl in
    let g : Step route run left at_end = join refl refl in
    next (next (next (next (next (next (next Reach-enqueued a) b) c) d) e) f) g

fifo_example :
    (results : List ℕ) × (enqueued.history ≡ results ++ (in_hand enqueued.worker ++ enqueued.input))
    × (enqueued.completed ≡ async_only route run results)
    × (enqueued.returned ≡ sync_only route run results)
fifo_example = fifo route run Reach-enqueued

pending_exact_example :
    enqueued.added ≡ enqueued.finished + (length enqueued.input + held enqueued.worker)
pending_exact_example = pending_exact route run Reach-enqueued refl

no_stranded_job_example : empty_found.input ≡ []
no_stranded_job_example = no_stranded_job route run Reach-empty_found refl (inr refl)

stop_drains_example :
    (at_end.input ≡ [])
    × (at_end.completed ≡ async_only route run at_end.history)
    × (at_end.returned ≡ sync_only route run at_end.history)
stop_drains_example = stop_drains route run Reach-at_end refl

stop_loses_wakeup_example :
    (t : System ℕ) × Reach route run empty_found t
    × (t.main ≡ joining)
    × ((u : System ℕ) → ¬ Step route run t u)
stop_loses_wakeup_example = stop_loses_wakeup route run empty_found refl refl refl

Reach-flagged : Reach route run init flagged
Reach-flagged =
    let a : Step route run enqueued taken_job = take 7 [] refl refl in
    let b : Step route run taken_job done_job = finish 7 refl in
    let c : Step route run done_job at_rest = discount refl in
    let d : Step route run at_rest flagged = clear_running refl refl in
    next (next (next (next Reach-enqueued a) b) c) d

notified-Steps : Steps route run flagged 1 notified
notified-Steps = let a : Step route run flagged notified = notify_all refl in then_one none_yet a

stop_returns_example :
    (1 ≤ 3 * length flagged.input + 5)
    × ((notified.main ≡ stopped) ⊎ ((u : System ℕ) × Step route run notified u))
stop_returns_example = stop_returns route run 1 Reach-flagged refl refl notified-Steps
