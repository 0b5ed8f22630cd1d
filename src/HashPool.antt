-- ===== src/HashPool.antt =====
-- The hashing pool of `QueryEngine` in src/QueryQueue.cpp: the input queue, the threads that run
-- `hashLoop`, the output queue, and the main thread, as a step relation. One step is one critical
-- section, one access to an atomic, one notification, or the hashing of one job. All threads
-- interleave in any order, so the results come in no order that a caller can rely on.
pub mod Conserved
pub mod Threads
pub mod Shutdown
pub mod Return
mod Tests
use omp_my_sql.Prelude.{
  ℕ, zero, suc, Bool, true, false, List, [], ◌∷◌, ◌++◌, ◌≡◌, replicate, ◌==◌, if◌then◌else◌, map,
}

-- Where a thread stands in `hashLoop`.
pub data HashPc (J : Type 0) : Type 0 where
  top : HashPc J  -- before the lock, or woken inside `wait`
  about_to_block : HashPc J  -- the predicate was false; the mutex is still held
  blocked : HashPc J
  hashing : J → HashPc J
  exited : HashPc J

-- Where the main thread stands in `enqueueHash` and `stopHashing`.
pub data PoolPc : Type 0 where
  idle pushed stopping joining stopped : PoolPc

pub record Pool (J : Type 0) : Type 0 where
  pub main : PoolPc
  pub running : Bool
  pub input : List J
  pub threads : List (HashPc J)
  pub output : List J
  -- history: every job enqueued, and every result drained
  pub history : List J
  pub drained : List J

-- `startHashing`
abbrev pub start : {J : Type 0} → ℕ → Pool J
start threads = record {
  main = idle;
  running = true;
  input = [];
  threads = replicate (if threads == 0 then 1 else threads) top;
  output = [];
  history = [];
  drained = [];
}

abbrev pub wake : {J : Type 0} → HashPc J → HashPc J
wake blocked = top
wake t = t

-- Does a thread hold the mutex of the input queue?
abbrev pub is_locked : {J : Type 0} → List (HashPc J) → Bool
is_locked [] = false
is_locked (about_to_block ∷ ts) = true
is_locked (t ∷ ts) = is_locked ts

-- The jobs that the threads have taken.
abbrev pub in_hand : {J : Type 0} → List (HashPc J) → List J
in_hand [] = []
in_hand (hashing j ∷ ts) = j ∷ in_hand ts
in_hand (t ∷ ts) = in_hand ts

-- `join` returns when the thread has left its loop.
abbrev pub all_exited : {J : Type 0} → List (HashPc J) → Bool
all_exited [] = true
all_exited (exited ∷ ts) = all_exited ts
all_exited (t ∷ ts) = false

module _ {J : Type 0} (work : J → J) where
  -- The threads before and after the one that moves are `xs` and `ys`.
  pub data Step (s : Pool J) : Pool J → Type 0 where
    -- `enqueueHash`
    push :
        (j : J)
        → s.main ≡ idle
        → is_locked s.threads ≡ false
        → Step s
            (record s { main = pushed; input = s.input ++ j ∷ []; history = s.history ++ j ∷ [] })
    -- `notify_one`, with a blocked thread to wake or without
    notify_one :
        (xs ys : List (HashPc J))
        → s.main ≡ pushed
        → s.threads ≡ xs ++ (blocked ∷ ys)
        → Step s (record s { main = idle; threads = xs ++ (top ∷ ys) })
    notify_none :
        s.main ≡ pushed → map wake s.threads ≡ s.threads → Step s (record s { main = idle })
    -- `drainHashes`
    drain : s.main ≡ idle → Step s (record s { output = []; drained = s.drained ++ s.output })
    -- `stopHashing`
    clear_running :
        s.main ≡ idle → s.running ≡ true → Step s (record s { main = stopping; running = false })
    notify_all :
        s.main ≡ stopping → Step s (record s { main = joining; threads = map wake s.threads })
    join : s.main ≡ joining → all_exited s.threads ≡ true → Step s (record s { main = stopped })
    -- `hashLoop`
    check :
        (xs ys : List (HashPc J))
        → s.threads ≡ xs ++ (top ∷ ys)
        → is_locked s.threads ≡ false
        → s.running ≡ true
        → s.input ≡ []
        → Step s (record s { threads = xs ++ (about_to_block ∷ ys) })
    block :
        (xs ys : List (HashPc J))
        → s.threads ≡ xs ++ (about_to_block ∷ ys)
        → Step s (record s { threads = xs ++ (blocked ∷ ys) })
    leave :
        (xs ys : List (HashPc J))
        → s.threads ≡ xs ++ (top ∷ ys)
        → is_locked s.threads ≡ false
        → s.running ≡ false
        → s.input ≡ []
        → Step s (record s { threads = xs ++ (exited ∷ ys) })
    take :
        (xs ys : List (HashPc J)) (j : J) (rest : List J)
        → s.threads ≡ xs ++ (top ∷ ys)
        → is_locked s.threads ≡ false
        → s.input ≡ j ∷ rest
        → Step s (record s { threads = xs ++ (hashing j ∷ ys); input = rest })
    finish :
        (xs ys : List (HashPc J)) (j : J)
        → s.threads ≡ xs ++ (hashing j ∷ ys)
        → Step s (record s { threads = xs ++ (top ∷ ys); output = s.output ++ work j ∷ [] })

  pub data Reach (s : Pool J) : Pool J → Type 0 where
    here : Reach s s
    next : {t u : Pool J} → Reach s t → Step t u → Reach s u
