-- ===== src/Worker/Return.antt =====
-- When `stop` of src/QueryQueue.cpp returns. It waits forever if the worker is between its test of the
-- flag and its sleep when the flag is cleared, which is assumed not to be the case here.
use Prim.Native.Nat.{◌*◌}
use omp_my_sql.Prelude.{
  ℕ, suc, ◌+◌, ◌≤◌, ◌<◌, Bool, true, false, List, [], ◌∷◌, ◌≡◌, refl, ◌∙◌, ap, arith, length, ◌⊎◌,
  inl, inr,
}
use omp_my_sql.Worker.{
  Route, teardown, sync, async, WorkerPc, top, about_to_block, blocked, executing, delivered,
  exited, MainPc, idle, pushed, counted, stopping, joining, stopped, System, init, wake, deliver,
  holds_lock, Step, push, count, notify_one, clear_running, notify_all, join, check, block, leave,
  take, finish, discount, Reach,
}
use omp_my_sql.Worker.Order.{Reach-Ordered}

-- The steps that the main thread still has to take in `stop`.
abbrev main_steps : MainPc → ℕ
main_steps stopping = 2
main_steps joining = 1
main_steps _ = 0

main_steps_bound : (m : MainPc) → main_steps m ≤ 2
main_steps_bound idle = omega arith
main_steps_bound pushed = omega arith
main_steps_bound counted = omega arith
main_steps_bound stopping = omega arith
main_steps_bound joining = omega arith
main_steps_bound stopped = omega arith

module _ {J : Type 0} where
  -- Where `stop` and the worker may stand: the worker is not on its way to sleep, and behind
  -- `notify_all` it does not sleep.
  abbrev can_return : MainPc → WorkerPc J → Bool
  can_return stopping about_to_block = false
  can_return stopping _ = true
  can_return joining about_to_block = false
  can_return joining blocked = false
  can_return joining _ = true
  can_return stopped _ = true
  can_return _ _ = false

  can_return-stopping : (w : WorkerPc J) → holds_lock w ≡ false → can_return stopping w ≡ true
  can_return-stopping top h = refl
  can_return-stopping about_to_block h = cc
  can_return-stopping blocked h = refl
  can_return-stopping (executing j) h = refl
  can_return-stopping delivered h = refl
  can_return-stopping exited h = refl

  can_return-wake :
      (w : WorkerPc J) → can_return stopping w ≡ true → can_return joining (wake w) ≡ true
  can_return-wake top h = refl
  can_return-wake about_to_block h = cc
  can_return-wake blocked h = refl
  can_return-wake (executing j) h = refl
  can_return-wake delivered h = refl
  can_return-wake exited h = refl

  -- How many more steps a thread can take once the flag is down.
  abbrev worker_steps : WorkerPc J → ℕ
  worker_steps top = 1
  worker_steps about_to_block = 3
  worker_steps blocked = 2
  worker_steps (executing j) = 3
  worker_steps delivered = 2
  worker_steps exited = 0

  abbrev steps_left : System J → ℕ
  steps_left s = worker_steps s.worker + 3 * length s.input + main_steps s.main

  worker_steps-wake : (w : WorkerPc J) → worker_steps (wake w) ≤ worker_steps w
  worker_steps-wake top = omega arith
  worker_steps-wake about_to_block = omega arith
  worker_steps-wake blocked = omega arith
  worker_steps-wake (executing j) = omega arith
  worker_steps-wake delivered = omega arith
  worker_steps-wake exited = omega arith

  worker_steps_bound : (w : WorkerPc J) → worker_steps w ≤ 3
  worker_steps_bound top = omega arith
  worker_steps_bound about_to_block = omega arith
  worker_steps_bound blocked = omega arith
  worker_steps_bound (executing j) = omega arith
  worker_steps_bound delivered = omega arith
  worker_steps_bound exited = omega arith

module _ {J : Type 0} (route : J → Route) (run : J → J) where
  -- The flag is down, `stop` can still return, and one of the steps left is taken.
  abbrev Closes : System J → System J → Type 0
  Closes s t =
      (t.running ≡ false) × (can_return t.main t.worker ≡ true) × (steps_left t < steps_left s)

  delivers :
      (r : Route) (j : J) (s : System J)
      → s.worker ≡ executing j
      → s.running ≡ false
      → can_return s.main s.worker ≡ true
      → Closes s (deliver route run r j s)
  delivers teardown j s w off can = ground arith
  delivers sync j s w off can = ground arith
  delivers async j s w off can = ground arith

  Step-Closes :
      {s t : System J}
      → Step route run s t
      → s.running ≡ false
      → can_return s.main s.worker ≡ true
      → Closes s t
  Step-Closes {s} (push j m l) off can = ground arith
  Step-Closes {s} (count m) off can = ground arith
  Step-Closes {s} (notify_one m) off can = ground arith
  Step-Closes {s} (clear_running m r) off can = ground arith
  Step-Closes {s} (notify_all m) off can =
      ground (arith, can_return-wake s.worker, worker_steps-wake s.worker)
  Step-Closes {s} (join m w) off can = ground arith
  Step-Closes {s} (check w r i) off can = ground arith
  Step-Closes {s} (block w) off can = ground arith
  Step-Closes {s} (leave w r i) off can = ground arith
  Step-Closes {s} (take j rest w i) off can = let fewer = ap length i in ground arith
  Step-Closes {s} (finish j w) off can = delivers (route j) j s w off can
  Step-Closes {s} (discount w) off can = ground arith

  -- A run of so many steps.
  pub data Steps (s : System J) : ℕ → System J → Type 0 where
    none_yet : Steps s 0 s
    then_one : {n : ℕ} {t u : System J} → Steps s n t → Step route run t u → Steps s (suc n) u

  Steps-Closes :
      {s t : System J} {n : ℕ}
      → Steps s n t
      → s.running ≡ false
      → can_return s.main s.worker ≡ true
      → (t.running ≡ false)
        × (can_return t.main t.worker ≡ true)
        × (n + steps_left t ≤ steps_left s)
  Steps-Closes none_yet off can = (off, can, omega arith)
  Steps-Closes (then_one steps one) off can =
      let (off', can', some_left) = Steps-Closes steps off can in
      let (off'', can'', fewer) = Step-Closes one off' can' in (off'', can'', omega arith)

  -- What the worker can do while `stop` waits for it.
  worker_moves :
      (s : System J) (w : WorkerPc J) (input : List J)
      → s.worker ≡ w
      → s.input ≡ input
      → s.main ≡ joining
      → s.running ≡ false
      → can_return joining w ≡ true
      → (t : System J) × Step route run s t
  worker_moves s top [] w i m off can = (_, leave w off i)
  worker_moves s top (j ∷ rest) w i m off can = (_, take j rest w i)
  worker_moves s about_to_block input w i m off can = cc
  worker_moves s blocked input w i m off can = cc
  worker_moves s (executing j) input w i m off can = (_, finish j w)
  worker_moves s delivered input w i m off can = (_, discount w)
  worker_moves s exited input w i m off can = (_, join m w)

  closing_moves :
      (s : System J) (p : MainPc)
      → s.main ≡ p
      → s.running ≡ false
      → can_return p s.worker ≡ true
      → (s.main ≡ stopped) ⊎ ((t : System J) × Step route run s t)
  closing_moves s idle e off can = cc
  closing_moves s pushed e off can = cc
  closing_moves s counted e off can = cc
  closing_moves s stopping e off can = inr (_, notify_all e)
  closing_moves s joining e off can = inr (worker_moves s s.worker s.input refl refl e off can)
  closing_moves s stopped e off can = inl e

  -- If, just behind the store that clears the flag, the worker is not between its test of the flag and
  -- its sleep, then `stop` returns, whatever the interleaving: each run from there has at most three
  -- steps for each job in the queue and five more, and where a run cannot go on, `stop` has returned.
  pub stop_returns :
      {s t : System J} (k : ℕ)
      → Reach route run init s
      → s.main ≡ stopping
      → holds_lock s.worker ≡ false
      → Steps s k t
      → (k ≤ 3 * length s.input + 5) × ((t.main ≡ stopped) ⊎ ((u : System J) × Step route run t u))
  stop_returns {s} {t} k r m l steps =
      let (results, o) = Reach-Ordered route run r in
      let off : s.running ≡ false = ground (arith, o.running_is) in
      let can : can_return s.main s.worker ≡ true =
        ap (λ p. can_return p s.worker) m ∙ can_return-stopping s.worker l in
      let (off', can', few) = Steps-Closes steps off can in
      let bound = worker_steps_bound s.worker in
      let main = main_steps_bound s.main in (omega arith, closing_moves t t.main refl off' can')
