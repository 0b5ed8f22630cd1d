-- ===== src/HashPool/Conserved.antt =====
-- The jobs of the hashing pool of src/QueryQueue.cpp, counted wherever they are. The order is
-- forgotten: lists are compared by how many of their elements pass a test.
use omp_my_sql.Prelude.{
  ℕ, zero, suc, ◌+◌, Bool, List, [], ◌∷◌, ◌++◌, ◌≡◌, refl, ◌∙◌, ap, arith, map, replicate, ◌==◌,
  if◌then◌else◌,
}
use omp_my_sql.HashPool.{
  HashPc, top, about_to_block, blocked, hashing, exited, Pool, start, wake, in_hand, Step, push,
  notify_one, notify_none, drain, clear_running, notify_all, join, check, block, leave, take,
  finish, Reach, here, next,
}

module _ {J : Type 0} where
  -- How many elements pass the test.
  unfoldable pub count : (J → Bool) → List J → ℕ
  count p [] = 0
  count p (x ∷ xs) = if p x then suc (count p xs) else count p xs

  pub count-append : (p : J → Bool) (xs ys : List J) → count p (xs ++ ys) ≡ count p xs + count p ys
  unfolding count
  count-append p [] ys = omega arith
  count-append p (x ∷ xs) ys = ground (arith, count-append p xs ys)

  count-in_hand :
      (p : J → Bool) (xs ys : List (HashPc J))
      → count p (in_hand (xs ++ ys)) ≡ count p (in_hand xs) + count p (in_hand ys)
  unfolding count
  count-in_hand p [] ys = omega arith
  count-in_hand p (hashing j ∷ xs) ys = ground (arith, count-in_hand p xs ys)
  count-in_hand p (top ∷ xs) ys = count-in_hand p xs ys
  count-in_hand p (about_to_block ∷ xs) ys = count-in_hand p xs ys
  count-in_hand p (blocked ∷ xs) ys = count-in_hand p xs ys
  count-in_hand p (exited ∷ xs) ys = count-in_hand p xs ys

  in_hand-wake : (ts : List (HashPc J)) → in_hand (map wake ts) ≡ in_hand ts
  in_hand-wake [] = refl
  in_hand-wake (hashing j ∷ ts) = ap (λ js. j ∷ js) (in_hand-wake ts)
  in_hand-wake (top ∷ ts) = in_hand-wake ts
  in_hand-wake (about_to_block ∷ ts) = in_hand-wake ts
  in_hand-wake (blocked ∷ ts) = in_hand-wake ts
  in_hand-wake (exited ∷ ts) = in_hand-wake ts

module _ {J : Type 0} (work : J → J) (p : J → Bool) where
  abbrev done : J → Bool
  done j = p (work j)

  -- The results that pass the test, and the jobs whose result would.
  abbrev pub Conserved : Pool J → Type 0
  Conserved s =
      count p s.drained + count p s.output + count done (in_hand s.threads) + count done s.input
      ≡ count done s.history

  held :
      (s : Pool J) (xs ys : List (HashPc J))
      → s.threads ≡ xs ++ ys
      → count done (in_hand s.threads) ≡ count done (in_hand xs) + count done (in_hand ys)
  held s xs ys e = ap (λ ts. count done (in_hand ts)) e ∙ count-in_hand done xs ys

  Step-Conserved : {s t : Pool J} → Step work s t → Conserved s → Conserved t
  unfolding count
  Step-Conserved {s} (push j m l) h =
      omega (arith, count-append done s.input (j ∷ []), count-append done s.history (j ∷ []))
  Step-Conserved {s} (notify_one xs ys m e) h =
      omega (arith, held s xs (blocked ∷ ys) e, count-in_hand done xs (top ∷ ys))
  Step-Conserved {s} (notify_none m e) h = h
  Step-Conserved {s} (drain m) h = omega (arith, count-append p s.drained s.output)
  Step-Conserved {s} (clear_running m r) h = h
  Step-Conserved {s} (notify_all m) h = rw (in_hand-wake s.threads) h
  Step-Conserved {s} (join m w) h = h
  Step-Conserved {s} (check xs ys e l r i) h =
      omega (arith, held s xs (top ∷ ys) e, count-in_hand done xs (about_to_block ∷ ys))
  Step-Conserved {s} (block xs ys e) h =
      omega (arith, held s xs (about_to_block ∷ ys) e, count-in_hand done xs (blocked ∷ ys))
  Step-Conserved {s} (leave xs ys e l r i) h =
      omega (arith, held s xs (top ∷ ys) e, count-in_hand done xs (exited ∷ ys))
  Step-Conserved {s} (take xs ys j rest e l i) h =
      let before = held s xs (top ∷ ys) e in
      let after = count-in_hand done xs (hashing j ∷ ys) in
      let taken = ap (count done) i in ground (arith, before, after, taken)
  Step-Conserved {s} (finish xs ys j e) h =
      let before = held s xs (hashing j ∷ ys) e in
      let after = count-in_hand done xs (top ∷ ys) in
      let put = count-append p s.output (work j ∷ []) in ground (arith, before, after, put)

  in_hand-replicate : (n : ℕ) → in_hand (replicate {A = HashPc J} n top) ≡ []
  in_hand-replicate zero = refl
  in_hand-replicate (suc n) = in_hand-replicate n

  -- In every reachable state, whatever test the results are put to: as many enqueued jobs have a
  -- result that passes it as there are passing results drained and in the output queue, jobs with
  -- such a result in the hands of a thread, and such jobs in the input queue. So no job is lost, and
  -- none is hashed twice.
  pub hashes_conserved :
      (n : ℕ) {s : Pool J}
      → Reach work (start n) s
      → count p s.drained + count p s.output + count done (in_hand s.threads) + count done s.input
        ≡ count done s.history
  unfolding count
  hashes_conserved n here = rw (in_hand-replicate (if n == 0 then 1 else n)) refl
  hashes_conserved n (next r st) = Step-Conserved st (hashes_conserved n r)
