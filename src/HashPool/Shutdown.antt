-- ===== src/HashPool/Shutdown.antt =====
-- The work of the hashing pool of src/QueryQueue.cpp when `stopHashing` has returned, and the steps
-- that are left.
use omp_my_sql.Prelude.{
  ℕ, suc, ◌+◌, ◌≤◌, ◌<◌, Bool, true, false, List, [], ◌∷◌, ◌++◌, ◌≡◌, ◌≢◌, refl, sym, ◌∙◌, ap,
  arith, length, if◌then◌else◌, ◌==◌,
}
use omp_my_sql.HashPool.{
  HashPc, top, about_to_block, blocked, hashing, exited, stopped, Pool, start, all_exited, Step,
  push, notify_one, notify_none, drain, clear_running, notify_all, join, check, block, leave, take,
  finish, Reach, here, next,
}
use omp_my_sql.HashPool.Conserved.{count, hashes_conserved}
use omp_my_sql.HashPool.Threads.{
  all_exited-has_exited, all_exited-in_hand, all_exited-other, all_steps-change, all_steps-wake,
  has_exited, has_exited-change, has_exited-start, has_exited-wake, is_exited, is_up, length-start,
  length-wake, length_middle, steps_left,
}

module _ {J : Type 0} (work : J → J) where
  -- With the flag down, a step takes one of the steps left.
  Step-steps_left :
      {s t : Pool J}
      → Step work s t
      → s.running ≡ false
      → is_up s.main ≡ false
      → (t.running ≡ false) × (is_up t.main ≡ false) × (steps_left t < steps_left s)
  Step-steps_left {s} (push j m l) r u = cc
  Step-steps_left {s} (notify_one xs ys m e) r u = cc
  Step-steps_left {s} (notify_none m e) r u = cc
  Step-steps_left {s} (drain m) r u = cc
  Step-steps_left {s} (clear_running m q) r u = cc
  Step-steps_left {s} (notify_all m) r u =
      let fewer = all_steps-wake s.threads in ground (arith, fewer)
  Step-steps_left {s} (join m w) r u = ground arith
  Step-steps_left {s} (check xs ys e l q i) r u = cc
  Step-steps_left {s} (block xs ys e) r u =
      let change = all_steps-change s.threads xs ys about_to_block blocked e in
      ground (arith, change)
  Step-steps_left {s} (leave xs ys e l q i) r u =
      let change = all_steps-change s.threads xs ys top exited e in ground (arith, change)
  Step-steps_left {s} (take xs ys j rest e l i) r u =
      let change = all_steps-change s.threads xs ys top (hashing j) e in
      let fewer = ap length i in ground (arith, change, fewer)
  Step-steps_left {s} (finish xs ys j e) r u =
      let change = all_steps-change s.threads xs ys (hashing j) top e in ground (arith, change)

  -- A run of so many steps.
  pub data Steps (s : Pool J) : ℕ → Pool J → Type 0 where
    none_yet : Steps s 0 s
    then_one : {n : ℕ} {t u : Pool J} → Steps s n t → Step work t u → Steps s (suc n) u

  pub Steps-steps_left :
      {s : Pool J} {n : ℕ} {t : Pool J}
      → s.running ≡ false
      → is_up s.main ≡ false
      → Steps s n t
      → (t.running ≡ false) × (is_up t.main ≡ false) × (n + steps_left t ≤ steps_left s)
  Steps-steps_left r u none_yet = (r, u, omega arith)
  Steps-steps_left r u (then_one st one) =
      let (r', u', some_left) = Steps-steps_left r u st in
      let (r'', u'', fewer) = Step-steps_left one r' u' in (r'', u'', omega arith)

  pub record IsOrderly (s : Pool J) : Type 0 where
    pub up : s.running ≡ is_up s.main
    pub left_when_done : has_exited s.threads ≡ true → (s.running ≡ false) × (s.input ≡ [])
    pub joined : s.main ≡ stopped → all_exited s.threads ≡ true
    pub some_threads : 0 < length s.threads

  other_joined :
      (s : Pool J) (xs ys : List (HashPc J)) (a : HashPc J)
      → s.threads ≡ xs ++ (a ∷ ys)
      → is_exited a ≡ false
      → IsOrderly s
      → s.main ≢ stopped
  other_joined s xs ys a e h o m =
      let all = o.joined m in let other = all_exited-other xs ys a h in cc (all, other, e)

  -- A thread that is in its loop moves, and the main thread and the input queue do not.
  moved :
      (s : Pool J) (xs ys : List (HashPc J)) (a b : HashPc J) (output : List J)
      → s.threads ≡ xs ++ (a ∷ ys)
      → is_exited a ≡ false
      → is_exited b ≡ false
      → IsOrderly s
      → IsOrderly (record s { threads = xs ++ (b ∷ ys); output = output })
  moved s xs ys a b output e ha hb o = record {
    up = o.up;
    left_when_done =
        λ q. o.left_when_done (sym (has_exited-change s.threads xs ys a b e (ha ∙ sym hb)) ∙ q);
    joined = λ m. absurd (other_joined s xs ys a e ha o m);
    some_threads = length_middle xs ys b;
  }

  Step-IsOrderly : {s t : Pool J} → Step work s t → IsOrderly s → IsOrderly t
  Step-IsOrderly {s} (push j m l) o = ground (arith, o.left_when_done)
  Step-IsOrderly {s} (notify_one xs ys m e) o =
      let p = moved s xs ys blocked top s.output e refl refl o in
      record {
        up = o.up ∙ rw m refl;
        left_when_done = p.left_when_done;
        joined = λ q. cc;
        some_threads = p.some_threads;
      }
  Step-IsOrderly {s} (notify_none m e) o = ground arith
  Step-IsOrderly {s} (drain m) o = ground arith
  Step-IsOrderly {s} (clear_running m r) o = record {
    up = refl;
    left_when_done = λ q. (refl, (o.left_when_done q).1);
    joined = λ q. cc;
    some_threads = o.some_threads;
  }
  Step-IsOrderly {s} (notify_all m) o = record {
    up = o.up ∙ rw m refl;
    left_when_done = λ q. o.left_when_done (sym (has_exited-wake s.threads) ∙ q);
    joined = λ q. cc;
    some_threads = omega (arith, length-wake s.threads, o.some_threads);
  }
  Step-IsOrderly {s} (join m w) o = record {
    up = o.up ∙ rw m refl;
    left_when_done = o.left_when_done;
    joined = λ q. w;
    some_threads = o.some_threads;
  }
  Step-IsOrderly {s} (check xs ys e l r i) o =
      moved s xs ys top about_to_block s.output e refl refl o
  Step-IsOrderly {s} (block xs ys e) o = moved s xs ys about_to_block blocked s.output e refl refl o
  Step-IsOrderly {s} (leave xs ys e l r i) o = record {
    up = o.up;
    left_when_done = λ q. (r, i);
    joined = λ m. absurd (other_joined s xs ys top e refl o m);
    some_threads = length_middle xs ys exited;
  }
  Step-IsOrderly {s} (take xs ys j rest e l i) o =
      let p = moved s xs ys top (hashing j) s.output e refl refl o in
      record {
        up = o.up;
        left_when_done = λ q. cc (i, (p.left_when_done q).1);
        joined = p.joined;
        some_threads = p.some_threads;
      }
  Step-IsOrderly {s} (finish xs ys j e) o =
      moved s xs ys (hashing j) top (s.output ++ work j ∷ []) e refl refl o

  pub Reach-IsOrderly : (n : ℕ) {s : Pool J} → Reach work (start n) s → IsOrderly s
  Reach-IsOrderly n here =
      let size : ℕ = if n == 0 then 1 else n in
      let full : 0 < size = ground arith in
      record {
        up = refl;
        left_when_done = λ q. cc (has_exited-start J size, q);
        joined = λ q. cc;
        some_threads = omega (arith, length-start J size, full);
      }
  Reach-IsOrderly n (next r st) = Step-IsOrderly st (Reach-IsOrderly n r)

  -- When `stopHashing` has returned, whatever test the results are put to: the passing results that
  -- are drained or in the output queue are as many as the enqueued jobs with such a result.
  pub stopped_complete :
      (n : ℕ) (p : J → Bool) {s : Pool J}
      → Reach work (start n) s
      → s.main ≡ stopped
      → count p s.drained + count p s.output ≡ count (λ j. p (work j)) s.history
  unfolding count
  stopped_complete n p {s} r m =
      let o = Reach-IsOrderly n r in
      let all = o.joined m in
      let (off, none_left) =
        o.left_when_done (all_exited-has_exited s.threads all o.some_threads) in
      let e = hashes_conserved work p n r in
      let hands = ap (count (λ j. p (work j))) (all_exited-in_hand s.threads all) in
      let queue = ap (count (λ j. p (work j))) none_left in omega (arith, e, hands, queue)
