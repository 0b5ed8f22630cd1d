-- ===== src/HashPool/Threads.antt =====
-- The threads of the hashing pool of src/QueryQueue.cpp: who has left, and how many steps are left.
use Prim.Native.Nat.{◌*◌}
use omp_my_sql.Prelude.{
  ℕ, zero, suc, ◌+◌, ◌≤◌, ◌<◌, Bool, true, false, List, [], ◌∷◌, ◌++◌, ◌≡◌, refl, sym, ◌∙◌, ap,
  arith, map, length, ◌||◌, replicate, length-append,
}
use omp_my_sql.HashPool.{
  HashPc, top, about_to_block, blocked, hashing, exited, PoolPc, idle, pushed, stopping, joining,
  stopped, Pool, wake, in_hand, all_exited,
}

-- The steps that the main thread still has to take in `stopHashing`.
abbrev pub main_steps : PoolPc → ℕ
main_steps stopping = 2
main_steps joining = 1
main_steps _ = 0

pub main_steps_bound : (m : PoolPc) → main_steps m ≤ 2
main_steps_bound stopping = omega arith
main_steps_bound joining = omega arith
main_steps_bound stopped = omega arith
main_steps_bound idle = omega arith
main_steps_bound pushed = omega arith

-- Before `stopHashing`.
abbrev pub is_up : PoolPc → Bool
is_up idle = true
is_up pushed = true
is_up _ = false

module _ {J : Type 0} where
  abbrev pub is_exited : HashPc J → Bool
  is_exited exited = true
  is_exited _ = false

  abbrev pub has_exited : List (HashPc J) → Bool
  has_exited [] = false
  has_exited (t ∷ ts) = is_exited t || has_exited ts

  -- How many more steps a thread can take once the flag is down.
  abbrev pub thread_steps : HashPc J → ℕ
  thread_steps top = 1
  thread_steps about_to_block = 3
  thread_steps blocked = 2
  thread_steps (hashing j) = 2
  thread_steps exited = 0

  abbrev pub all_steps : List (HashPc J) → ℕ
  all_steps [] = 0
  all_steps (t ∷ ts) = thread_steps t + all_steps ts

  abbrev pub steps_left : Pool J → ℕ
  steps_left s = all_steps s.threads + 2 * length s.input + main_steps s.main

  pub all_steps-append :
      (xs ys : List (HashPc J)) → all_steps (xs ++ ys) ≡ all_steps xs + all_steps ys
  all_steps-append [] ys = omega arith
  all_steps-append (x ∷ xs) ys = omega (arith, all_steps-append xs ys)

  pub all_steps_bound : (ts : List (HashPc J)) → all_steps ts ≤ 3 * length ts
  all_steps_bound [] = omega arith
  all_steps_bound (top ∷ ts) = omega (arith, all_steps_bound ts)
  all_steps_bound (about_to_block ∷ ts) = omega (arith, all_steps_bound ts)
  all_steps_bound (blocked ∷ ts) = omega (arith, all_steps_bound ts)
  all_steps_bound (hashing j ∷ ts) = omega (arith, all_steps_bound ts)
  all_steps_bound (exited ∷ ts) = omega (arith, all_steps_bound ts)

  pub all_steps-wake : (ts : List (HashPc J)) → all_steps (map wake ts) ≤ all_steps ts
  all_steps-wake [] = omega arith
  all_steps-wake (top ∷ ts) = omega (arith, all_steps-wake ts)
  all_steps-wake (about_to_block ∷ ts) = omega (arith, all_steps-wake ts)
  all_steps-wake (blocked ∷ ts) = omega (arith, all_steps-wake ts)
  all_steps-wake (hashing j ∷ ts) = omega (arith, all_steps-wake ts)
  all_steps-wake (exited ∷ ts) = omega (arith, all_steps-wake ts)

  pub all_steps-change :
      (ts xs ys : List (HashPc J)) (a b : HashPc J)
      → ts ≡ xs ++ (a ∷ ys)
      → all_steps ts + thread_steps b ≡ all_steps (xs ++ (b ∷ ys)) + thread_steps a
  all_steps-change ts xs ys a b e =
      omega (arith, ap all_steps e, all_steps-append xs (a ∷ ys), all_steps-append xs (b ∷ ys))

  pub has_exited-append :
      (xs ys : List (HashPc J)) → has_exited (xs ++ ys) ≡ has_exited xs || has_exited ys
  has_exited-append [] ys = refl
  has_exited-append (x ∷ xs) ys = ground (arith, has_exited-append xs ys)

  -- A thread that moves and does not leave.
  pub has_exited-change :
      (ts xs ys : List (HashPc J)) (a b : HashPc J)
      → ts ≡ xs ++ (a ∷ ys)
      → is_exited a ≡ is_exited b
      → has_exited (xs ++ (b ∷ ys)) ≡ has_exited ts
  has_exited-change ts xs ys a b e h =
      has_exited-append xs (b ∷ ys)
      ∙ rw (← h) (sym (has_exited-append xs (a ∷ ys)) ∙ ap has_exited (sym e))

  pub has_exited-wake : (ts : List (HashPc J)) → has_exited (map wake ts) ≡ has_exited ts
  has_exited-wake [] = refl
  has_exited-wake (exited ∷ ts) = refl
  has_exited-wake (top ∷ ts) = has_exited-wake ts
  has_exited-wake (about_to_block ∷ ts) = has_exited-wake ts
  has_exited-wake (blocked ∷ ts) = has_exited-wake ts
  has_exited-wake (hashing j ∷ ts) = has_exited-wake ts

  pub all_exited-other :
      (xs ys : List (HashPc J)) (a : HashPc J)
      → is_exited a ≡ false
      → all_exited (xs ++ (a ∷ ys)) ≡ false
  all_exited-other [] ys top h = refl
  all_exited-other [] ys about_to_block h = refl
  all_exited-other [] ys blocked h = refl
  all_exited-other [] ys (hashing j) h = refl
  all_exited-other [] ys exited h = cc
  all_exited-other (exited ∷ xs) ys a h = all_exited-other xs ys a h
  all_exited-other (top ∷ xs) ys a h = refl
  all_exited-other (about_to_block ∷ xs) ys a h = refl
  all_exited-other (blocked ∷ xs) ys a h = refl
  all_exited-other (hashing j ∷ xs) ys a h = refl

  pub all_exited-has_exited :
      (ts : List (HashPc J)) → all_exited ts ≡ true → 0 < length ts → has_exited ts ≡ true
  all_exited-has_exited [] h n = absurd (omega arith)
  all_exited-has_exited (exited ∷ ts) h n = refl
  all_exited-has_exited (top ∷ ts) h n = cc
  all_exited-has_exited (about_to_block ∷ ts) h n = cc
  all_exited-has_exited (blocked ∷ ts) h n = cc
  all_exited-has_exited (hashing j ∷ ts) h n = cc

  pub length_middle : (xs ys : List (HashPc J)) (a : HashPc J) → 0 < length (xs ++ (a ∷ ys))
  length_middle xs ys a = omega (arith, length-append xs (a ∷ ys))

  pub length-wake : (ts : List (HashPc J)) → length (map wake ts) ≡ length ts
  length-wake [] = refl
  length-wake (t ∷ ts) = omega (arith, length-wake ts)

  pub all_exited-in_hand : (ts : List (HashPc J)) → all_exited ts ≡ true → in_hand ts ≡ []
  all_exited-in_hand [] h = refl
  all_exited-in_hand (exited ∷ ts) h = all_exited-in_hand ts h
  all_exited-in_hand (top ∷ ts) h = cc
  all_exited-in_hand (about_to_block ∷ ts) h = cc
  all_exited-in_hand (blocked ∷ ts) h = cc
  all_exited-in_hand (hashing j ∷ ts) h = cc

pub has_exited-start : (J : Type 0) (n : ℕ) → has_exited (replicate {A = HashPc J} n top) ≡ false
has_exited-start J zero = refl
has_exited-start J (suc n) = has_exited-start J n

pub length-start : (J : Type 0) (n : ℕ) → length (replicate {A = HashPc J} n top) ≡ n
length-start J zero = refl
length-start J (suc n) = omega (arith, length-start J n)
