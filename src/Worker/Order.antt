-- ===== src/Worker/Order.antt =====
-- The order in which the worker of src/QueryQueue.cpp runs and delivers the jobs of its queue.
use omp_my_sql.Prelude.{
  Bool, true, false, List, [], ◌∷◌, ◌++◌, ◌≡◌, refl, ap, ◌∙◌, arith, append_assoc, append-nil,
}
use omp_my_sql.Worker.{
  Route, sync, async, WorkerPc, executing, exited, MainPc, System, init, deliver, Step, push, count,
  notify_one, clear_running, notify_all, join, check, block, leave, take, finish, discount, Reach,
  here, next,
}

-- `stop` has not begun.
abbrev pub is_live : MainPc → Bool
is_live MainPc.idle = true
is_live MainPc.pushed = true
is_live MainPc.counted = true
is_live _ = false

-- The job in the worker's hands, if its result is still to be delivered.
abbrev pub in_hand : {J : Type 0} → WorkerPc J → List J
in_hand (executing j) = j ∷ []
in_hand _ = []

module _ {J : Type 0} (route : J → Route) (run : J → J) where
  -- What of a run of jobs reaches the completed sink, and the blocked callers.
  abbrev pub async_only : List J → List J
  async_only [] = []
  async_only (j ∷ js) = elim (route j) [ async ↦ run j ∷ async_only js | _ ↦ async_only js ]

  abbrev pub sync_only : List J → List J
  sync_only [] = []
  sync_only (j ∷ js) = elim (route j) [ sync ↦ run j ∷ sync_only js | _ ↦ sync_only js ]

  pub async_only-append :
      (js : List J) (j : J) → async_only (js ++ j ∷ []) ≡ async_only js ++ async_only (j ∷ [])
  async_only-append [] j = refl
  async_only-append (k ∷ js) j = ground (arith, async_only-append js j)

  sync_only-append :
      (js : List J) (j : J) → sync_only (js ++ j ∷ []) ≡ sync_only js ++ sync_only (j ∷ [])
  sync_only-append [] j = refl
  sync_only-append (k ∷ js) j = ground (arith, sync_only-append js j)

  -- `results` are the jobs whose results are delivered, oldest first.
  pub record Ordered (results : List J) (s : System J) : Type 0 where
    pub taken_is : s.taken ≡ results ++ in_hand s.worker
    pub completed_is : s.completed ≡ async_only results
    pub returned_is : s.returned ≡ sync_only results
    pub history_is : s.history ≡ s.taken ++ s.input
    pub running_is : s.running ≡ is_live s.main
    pub exited_is : s.worker ≡ exited → (s.running ≡ false) × (s.input ≡ [])

  Ordered-init : Ordered [] init
  Ordered-init = record {
    taken_is = refl;
    completed_is = refl;
    returned_is = refl;
    history_is = refl;
    running_is = refl;
    exited_is = λ e. cc;
  }

  Ordered-finish :
      (results : List J) (j : J) (s : System J)
      → s.worker ≡ executing j
      → Ordered results s
      → Ordered (results ++ j ∷ []) (deliver route run (route j) j s)
  Ordered-finish results j s w o = ground (
    arith,
    async_only-append results j,
    sync_only-append results j,
    append-nil (results ++ j ∷ []),
    append-nil (async_only results),
    append-nil (sync_only results),
  )

  Step-Ordered :
      {s t : System J} (results : List J)
      → Step route run s t
      → Ordered results s
      → (results' : List J) × Ordered results' t
  Step-Ordered {s} results (push j m l) o =
      (results, ground (arith, append_assoc s.taken s.input (j ∷ [])))
  Step-Ordered {s} results (count m) o = (results, ground arith)
  Step-Ordered {s} results (notify_one m) o = (results, ground arith)
  Step-Ordered {s} results (clear_running m r) o = (results, ground arith)
  Step-Ordered {s} results (notify_all m) o = (results, ground arith)
  Step-Ordered {s} results (join m w) o = (results, ground arith)
  Step-Ordered {s} results (check w r i) o = (results, ground arith)
  Step-Ordered {s} results (block w) o = (results, ground arith)
  Step-Ordered {s} results (leave w r i) o = (results, ground arith)
  Step-Ordered {s} results (take j rest w i) o =
      (results, ground (arith, append_assoc s.taken (j ∷ []) rest, append-nil results))
  Step-Ordered {s} results (finish j w) o = (results ++ j ∷ [], Ordered-finish results j s w o)
  Step-Ordered {s} results (discount w) o = (results, ground arith)

  pub Reach-Ordered :
      {s : System J} → Reach route run init s → (results : List J) × Ordered results s
  Reach-Ordered here = ([], Ordered-init)
  Reach-Ordered (next r st) = let (results, o) = Reach-Ordered r in Step-Ordered results st o

  -- In every reachable state the jobs enqueued so far are, oldest first, those with a delivered
  -- result, then the one being run, then those in the queue. The completed sink and the blocked
  -- callers have got exactly the results that are meant for them, in that order, each once.
  pub fifo :
      {s : System J}
      → Reach route run init s
      → (results : List J) × (s.history ≡ results ++ (in_hand s.worker ++ s.input))
        × (s.completed ≡ async_only results)
        × (s.returned ≡ sync_only results)
  fifo {s} r =
      let (results, o) = Reach-Ordered r in
      (
        results,
        o.history_is
            ∙ ap (λ t. t ++ s.input) o.taken_is
            ∙ append_assoc results (in_hand s.worker) s.input,
        o.completed_is,
        o.returned_is,
      )
