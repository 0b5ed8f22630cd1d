-- ===== src/HashPool/Return.antt =====
-- When `stopHashing` of src/QueryQueue.cpp returns. It waits forever if a thread is between its test of
-- the flag and its sleep when the flag is cleared, which is assumed not to be the case here.
use Prim.Native.Nat.{◌*◌}
use omp_my_sql.Prelude.{
  ℕ, ◌+◌, ◌≤◌, Bool, true, false, List, [], ◌∷◌, ◌++◌, ◌≡◌, refl, ◌∙◌, ap, arith, length, map, ◌||◌,
  ◌⊎◌, inl, inr,
}
use omp_my_sql.HashPool.{
  HashPc, top, about_to_block, blocked, hashing, exited, PoolPc, idle, pushed, stopping, joining,
  stopped, Pool, start, wake, is_locked, all_exited, Step, push, notify_one, notify_none, drain,
  clear_running, notify_all, join, check, block, leave, take, finish, Reach,
}
use omp_my_sql.HashPool.Threads.{all_steps_bound, main_steps_bound, is_up}
use omp_my_sql.HashPool.Shutdown.{Reach-IsOrderly, Steps, none_yet, then_one, Steps-steps_left}

module _ {J : Type 0} where
  -- Does a thread sleep?
  abbrev pub sleeps : List (HashPc J) → Bool
  sleeps [] = false
  sleeps (blocked ∷ ts) = true
  sleeps (t ∷ ts) = sleeps ts

  abbrev is_asleep : HashPc J → Bool
  is_asleep blocked = true
  is_asleep _ = false

  abbrev holds : HashPc J → Bool
  holds about_to_block = true
  holds _ = false

  sleeps-append :
      (xs ys : List (HashPc J)) (a : HashPc J)
      → sleeps (xs ++ (a ∷ ys)) ≡ sleeps xs || (is_asleep a || sleeps ys)
  sleeps-append [] ys top = refl
  sleeps-append [] ys about_to_block = refl
  sleeps-append [] ys blocked = refl
  sleeps-append [] ys (hashing j) = refl
  sleeps-append [] ys exited = refl
  sleeps-append (top ∷ xs) ys a = sleeps-append xs ys a
  sleeps-append (about_to_block ∷ xs) ys a = sleeps-append xs ys a
  sleeps-append (blocked ∷ xs) ys a = refl
  sleeps-append (hashing j ∷ xs) ys a = sleeps-append xs ys a
  sleeps-append (exited ∷ xs) ys a = sleeps-append xs ys a

  is_locked-append :
      (xs ys : List (HashPc J)) (a : HashPc J)
      → is_locked (xs ++ (a ∷ ys)) ≡ is_locked xs || (holds a || is_locked ys)
  is_locked-append [] ys top = refl
  is_locked-append [] ys about_to_block = refl
  is_locked-append [] ys blocked = refl
  is_locked-append [] ys (hashing j) = refl
  is_locked-append [] ys exited = refl
  is_locked-append (top ∷ xs) ys a = is_locked-append xs ys a
  is_locked-append (about_to_block ∷ xs) ys a = refl
  is_locked-append (blocked ∷ xs) ys a = is_locked-append xs ys a
  is_locked-append (hashing j ∷ xs) ys a = is_locked-append xs ys a
  is_locked-append (exited ∷ xs) ys a = is_locked-append xs ys a

  sleeps-wake : (ts : List (HashPc J)) → sleeps (map wake ts) ≡ false
  sleeps-wake [] = refl
  sleeps-wake (top ∷ ts) = sleeps-wake ts
  sleeps-wake (about_to_block ∷ ts) = sleeps-wake ts
  sleeps-wake (blocked ∷ ts) = sleeps-wake ts
  sleeps-wake (hashing j ∷ ts) = sleeps-wake ts
  sleeps-wake (exited ∷ ts) = sleeps-wake ts

  is_locked-wake : (ts : List (HashPc J)) → is_locked (map wake ts) ≡ is_locked ts
  is_locked-wake [] = refl
  is_locked-wake (top ∷ ts) = is_locked-wake ts
  is_locked-wake (about_to_block ∷ ts) = refl
  is_locked-wake (blocked ∷ ts) = is_locked-wake ts
  is_locked-wake (hashing j ∷ ts) = is_locked-wake ts
  is_locked-wake (exited ∷ ts) = is_locked-wake ts

  -- A thread that is awake goes on and stays awake.
  still_awake :
      (ts xs ys : List (HashPc J)) (a b : HashPc J)
      → ts ≡ xs ++ (a ∷ ys)
      → holds b ≡ false
      → is_asleep b ≡ false
      → is_locked ts ≡ false
      → (is_locked (xs ++ (b ∷ ys)) ≡ false) × (sleeps ts ≡ false → sleeps (xs ++ (b ∷ ys)) ≡ false)
  still_awake ts xs ys a b e h s l =
      let before = ap is_locked e ∙ is_locked-append xs ys a in
      let slept = ap sleeps e ∙ sleeps-append xs ys a in
      let locked = is_locked-append xs ys b in
      let asleep = sleeps-append xs ys b in ground (arith, before, slept, locked, asleep)

  -- The flag is down, no thread is on its way to sleep, and behind `notify_all` none sleeps.
  record IsClosing (s : Pool J) : Type 0 where
    down : is_up s.main ≡ false
    off : s.running ≡ false
    unlocked : is_locked s.threads ≡ false
    awake : s.main ≡ joining → sleeps s.threads ≡ false

module _ {J : Type 0} (work : J → J) where
  Step-IsClosing : {s t : Pool J} → Step work s t → IsClosing s → IsClosing t
  Step-IsClosing {s} (push j m l) o = cc (o.down, ap is_up m)
  Step-IsClosing {s} (notify_one xs ys m e) o = cc (o.down, ap is_up m)
  Step-IsClosing {s} (notify_none m e) o = cc (o.down, ap is_up m)
  Step-IsClosing {s} (drain m) o = cc (o.down, ap is_up m)
  Step-IsClosing {s} (clear_running m r) o = cc (o.down, ap is_up m)
  Step-IsClosing {s} (notify_all m) o = record {
    down = refl;
    off = o.off;
    unlocked = is_locked-wake s.threads ∙ o.unlocked;
    awake = λ q. sleeps-wake s.threads;
  }
  Step-IsClosing {s} (join m w) o = record {
    down = refl;
    off = o.off;
    unlocked = o.unlocked;
    awake = λ q. cc;
  }
  Step-IsClosing {s} (check xs ys e l r i) o = cc (o.off, r)
  Step-IsClosing {s} (block xs ys e) o =
      let held = ap is_locked e ∙ is_locked-append xs ys about_to_block in
      absurd (ground (arith, held, o.unlocked))
  Step-IsClosing {s} (leave xs ys e l r i) o =
      let kept = still_awake s.threads xs ys top exited e refl refl o.unlocked in
      record { down = o.down; off = o.off; unlocked = kept.0; awake = λ q. kept.1 (o.awake q) }
  Step-IsClosing {s} (take xs ys j rest e l i) o =
      let kept = still_awake s.threads xs ys top (hashing j) e refl refl o.unlocked in
      record { down = o.down; off = o.off; unlocked = kept.0; awake = λ q. kept.1 (o.awake q) }
  Step-IsClosing {s} (finish xs ys j e) o =
      let kept = still_awake s.threads xs ys (hashing j) top e refl refl o.unlocked in
      record { down = o.down; off = o.off; unlocked = kept.0; awake = λ q. kept.1 (o.awake q) }

  Steps-IsClosing : {s t : Pool J} {n : ℕ} → Steps work s n t → IsClosing s → IsClosing t
  Steps-IsClosing none_yet o = o
  Steps-IsClosing (then_one run st) o = Step-IsClosing st (Steps-IsClosing run o)

  -- Among threads that are awake, one is before the lock or hashes, or all have left.
  data Awake (ts : List (HashPc J)) : Type 0 where
    at_top : (xs ys : List (HashPc J)) → ts ≡ xs ++ (top ∷ ys) → Awake ts
    at_work : (xs ys : List (HashPc J)) (j : J) → ts ≡ xs ++ (hashing j ∷ ys) → Awake ts
    all_left : all_exited ts ≡ true → Awake ts

  is_locked-Awake : (ts : List (HashPc J)) → is_locked ts ≡ false → sleeps ts ≡ false → Awake ts
  is_locked-Awake [] l s = all_left refl
  is_locked-Awake (top ∷ ts) l s = at_top [] ts refl
  is_locked-Awake (about_to_block ∷ ts) l s = cc
  is_locked-Awake (blocked ∷ ts) l s = cc
  is_locked-Awake (hashing j ∷ ts) l s = at_work [] ts j refl
  is_locked-Awake (exited ∷ ts) l s = elim (is_locked-Awake ts l s) [
    | at_top xs ys e ↦ at_top (exited ∷ xs) ys (ap (λ us. exited ∷ us) e)
    | at_work xs ys j e ↦ at_work (exited ∷ xs) ys j (ap (λ us. exited ∷ us) e)
    | all_left all ↦ all_left all
  ]

  top_moves :
      (s : Pool J) (xs ys : List (HashPc J)) (input : List J)
      → s.threads ≡ xs ++ (top ∷ ys)
      → s.input ≡ input
      → IsClosing s
      → (t : Pool J) × Step work s t
  top_moves s xs ys [] e i o = (_, leave xs ys e o.unlocked o.off i)
  top_moves s xs ys (j ∷ rest) e i o = (_, take xs ys j rest e o.unlocked i)

  closing_moves :
      (s : Pool J) (m : PoolPc)
      → s.main ≡ m
      → IsClosing s
      → (s.main ≡ stopped) ⊎ ((t : Pool J) × Step work s t)
  closing_moves s idle e o = cc (o.down, ap is_up e)
  closing_moves s pushed e o = cc (o.down, ap is_up e)
  closing_moves s stopping e o = inr (_, notify_all e)
  closing_moves s joining e o = elim (is_locked-Awake s.threads o.unlocked (o.awake e)) [
    | at_top xs ys at ↦ inr (top_moves s xs ys s.input at refl o)
    | at_work xs ys j at ↦ inr (_, finish xs ys j at)
    | all_left all ↦ inr (_, join e all)
  ]
  closing_moves s stopped e o = inl e

  -- If, just behind the store that clears the flag, no thread is between its test of the flag and its
  -- sleep, then `stopHashing` returns, whatever the interleaving: each run from there has at most
  -- three steps for each thread and two for each job in the input queue, and two more; and where a
  -- run cannot go on, `stopHashing` has returned.
  pub stop_hashing_returns :
      (n : ℕ) {s t : Pool J} (k : ℕ)
      → Reach work (start n) s
      → s.main ≡ stopping
      → is_locked s.threads ≡ false
      → Steps work s k t
      → (k ≤ 3 * length s.threads + 2 * length s.input + 2)
        × ((t.main ≡ stopped) ⊎ ((u : Pool J) × Step work t u))
  stop_hashing_returns n {s} {t} k r m l run =
      let o = Reach-IsOrderly work n r in
      let down : is_up s.main ≡ false = ap is_up m in
      let off : s.running ≡ false = o.up ∙ down in
      let (x, y, few) = Steps-steps_left work off down run in
      let bound = all_steps_bound s.threads in
      let main = main_steps_bound s.main in
      let closing : IsClosing s = record {
        down = down;
        off = off;
        unlocked = l;
        awake = λ q. cc;
      } in
      (omega arith, closing_moves t t.main refl (Steps-IsClosing run closing))
