-- ===== src/Worker/Shutdown.antt =====
-- `stop` of src/QueryQueue.cpp: the queue when it has returned, and the wake-up that it gives.
use omp_my_sql.Prelude.{true, false, [], ◌≡◌, refl, arith, append-nil, ap}
use omp_my_sql.Worker.{
  Route, teardown, sync, async, about_to_block, blocked, exited, idle, stopping, joining, stopped,
  System, init, wake, deliver, Step, push, count, notify_one, clear_running, notify_all, join,
  check, block, leave, take, finish, discount, Reach, here, next,
}
use omp_my_sql.Worker.Order.{Reach-Ordered, async_only, sync_only}

module _ {J : Type 0} (route : J → Route) (run : J → J) where
  abbrev Joined : System J → Type 0
  Joined s = s.main ≡ stopped → s.worker ≡ exited

  Step-Joined : {s t : System J} → Step route run s t → Joined s → Joined t
  Step-Joined {s} (finish j w) h = elim (route j) as (λ r. Joined (deliver route run r j s)) [
    | teardown ↦ ground arith
    | sync ↦ ground arith
    | async ↦ ground arith
  ]
  Step-Joined {s} (push j m l) h = ground arith
  Step-Joined {s} (count m) h = ground arith
  Step-Joined {s} (notify_one m) h = ground arith
  Step-Joined {s} (clear_running m r) h = ground arith
  Step-Joined {s} (notify_all m) h = ground arith
  Step-Joined {s} (join m w) h = ground arith
  Step-Joined {s} (check w r i) h = ground arith
  Step-Joined {s} (block w) h = ground arith
  Step-Joined {s} (leave w r i) h = ground arith
  Step-Joined {s} (take j rest w i) h = ground arith
  Step-Joined {s} (discount w) h = ground arith

  Reach-Joined : {s : System J} → Reach route run init s → Joined s
  Reach-Joined here = λ e. cc
  Reach-Joined (next r st) = Step-Joined st (Reach-Joined r)

  -- When `stop` has returned, every job ever enqueued has been run and its result delivered, in
  -- order: the `clear` of the queue discards nothing.
  pub stop_drains :
      {s : System J}
      → Reach route run init s
      → s.main ≡ stopped
      → (s.input ≡ [])
        × (s.completed ≡ async_only route run s.history)
        × (s.returned ≡ sync_only route run s.history)
  stop_drains {s} r m =
      let (results, o) = Reach-Ordered route run r in
      let e = Reach-Joined r m in
      let none_left = o.exited_is e in ground (arith, append-nil results)

  abbrev after_flag : System J → System J
  after_flag s = record s { main = stopping; running = false }

  abbrev after_notify : System J → System J
  after_notify s = record s { main = joining; running = false; worker = wake s.worker }

  abbrev after_block : System J → System J
  after_block s = record s { main = joining; running = false; worker = blocked }

  stuck : (s t : System J) → s.main ≡ joining → s.worker ≡ blocked → ¬ Step route run s t
  stuck s t m w (push j e l) = cc
  stuck s t m w (count e) = cc
  stuck s t m w (notify_one e) = cc
  stuck s t m w (clear_running e r) = cc
  stuck s t m w (notify_all e) = cc
  stuck s t m w (join e x) = cc
  stuck s t m w (check e r i) = cc
  stuck s t m w (block e) = cc
  stuck s t m w (leave e r i) = cc
  stuck s t m w (take j rest e i) = cc
  stuck s t m w (finish j e) = cc
  stuck s t m w (discount e) = cc

  -- `stop` clears the flag and notifies without the mutex: if the worker has read the flag and has
  -- not yet gone to sleep, the notification is lost, and `stop` can reach a state in which it waits
  -- for the worker, the worker sleeps, and neither thread has a step (spurious wake-ups aside).
  pub stop_loses_wakeup :
      (s : System J)
      → s.main ≡ idle
      → s.running ≡ true
      → s.worker ≡ about_to_block
      → (t : System J) × Reach route run s t
        × (t.main ≡ joining)
        × ((u : System J) → ¬ Step route run t u)
  stop_loses_wakeup s m r w =
      let flag : Step route run s (after_flag s) = clear_running m r in
      let notify : Step route run (after_flag s) (after_notify s) = notify_all refl in
      let sleep : Step route run (after_notify s) (after_block s) = block (ap wake w) in
      (
        after_block s,
        next (next (next here flag) notify) sleep,
        refl,
        λ u. stuck (after_block s) u refl refl,
      )
