-- ===== src/HashPool/Tests.antt =====
-- A run of the hashing pool of src/QueryQueue.cpp with two threads; a job is a number, and its result
-- the successor.
use Prim.Native.Nat.{◌*◌}
use omp_my_sql.Prelude.{
  ℕ, suc, ◌+◌, ◌≤◌, Bool, true, false, List, [], ◌∷◌, ◌≡◌, ◌⊎◌, refl, ◌==◌, length,
}
use omp_my_sql.HashPool.{
  HashPc, top, hashing, exited, PoolPc, idle, pushed, stopping, joining, stopped, Pool, start,
  in_hand, Step, push, notify_none, clear_running, notify_all, join, leave, take, finish, Reach,
  here, next,
}
use omp_my_sql.HashPool.Conserved.{count, hashes_conserved}
use omp_my_sql.HashPool.Return.{stop_hashing_returns}
use omp_my_sql.HashPool.Shutdown.{Steps, none_yet, then_one, stopped_complete}

abbrev pool : PoolPc → Bool → List ℕ → HashPc ℕ → HashPc ℕ → List ℕ → Pool ℕ
pool main running input t u output = record {
  main = main;
  running = running;
  input = input;
  threads = t ∷ u ∷ [];
  output = output;
  history = 7 ∷ [];
  drained = [];
}

abbrev is_eight : ℕ → Bool
is_eight r = r == 8

abbrev s₁ : Pool ℕ
s₁ = pool pushed true (7 ∷ []) top top []

abbrev s₂ : Pool ℕ
s₂ = pool pushed true [] top (hashing 7) []

abbrev s₃ : Pool ℕ
s₃ = pool idle true [] top (hashing 7) []

abbrev s₄ : Pool ℕ
s₄ = pool stopping false [] top (hashing 7) []

abbrev s₅ : Pool ℕ
s₅ = pool stopping false [] exited (hashing 7) []

abbrev s₆ : Pool ℕ
s₆ = pool stopping false [] exited top (8 ∷ [])

abbrev s₇ : Pool ℕ
s₇ = pool joining false [] exited top (8 ∷ [])

abbrev s₈ : Pool ℕ
s₈ = pool joining false [] exited exited (8 ∷ [])

abbrev s₉ : Pool ℕ
s₉ = pool stopped false [] exited exited (8 ∷ [])

first_steps : Reach suc (start 2) s₄
first_steps =
    let a : Step suc (start 2) s₁ = push 7 refl refl in
    let b : Step suc s₁ s₂ = take (top ∷ []) [] 7 [] refl refl refl in
    let c : Step suc s₂ s₃ = notify_none refl refl in
    let d : Step suc s₃ s₄ = clear_running refl refl in next (next (next (next here a) b) c) d

last-Steps : Steps suc s₄ 5 s₉
last-Steps =
    let a : Step suc s₄ s₅ = leave [] (hashing 7 ∷ []) refl refl refl refl in
    let b : Step suc s₅ s₆ = finish (exited ∷ []) [] 7 refl in
    let c : Step suc s₆ s₇ = notify_all refl in
    let d : Step suc s₇ s₈ = leave (exited ∷ []) [] refl refl refl refl in
    let e : Step suc s₈ s₉ = join refl refl in
    then_one (then_one (then_one (then_one (then_one none_yet a) b) c) d) e

all_steps : Reach suc (start 2) s₉
all_steps =
    let a : Step suc s₄ s₅ = leave [] (hashing 7 ∷ []) refl refl refl refl in
    let b : Step suc s₅ s₆ = finish (exited ∷ []) [] 7 refl in
    let c : Step suc s₆ s₇ = notify_all refl in
    let d : Step suc s₇ s₈ = leave (exited ∷ []) [] refl refl refl refl in
    let e : Step suc s₈ s₉ = join refl refl in
    next (next (next (next (next first_steps a) b) c) d) e

hashes_conserved_example :
    count is_eight s₄.drained
      + count is_eight s₄.output
      + count (λ j. is_eight (suc j)) (in_hand s₄.threads)
      + count (λ j. is_eight (suc j)) s₄.input
    ≡ count (λ j. is_eight (suc j)) s₄.history
hashes_conserved_example = hashes_conserved suc is_eight 2 first_steps

stopped_complete_example :
    count is_eight s₉.drained + count is_eight s₉.output ≡ count (λ j. is_eight (suc j)) s₉.history
stopped_complete_example = stopped_complete suc 2 is_eight all_steps refl

stop_hashing_returns_example :
    (5 ≤ 3 * length s₄.threads + 2 * length s₄.input + 2)
    × ((s₉.main ≡ stopped) ⊎ ((u : Pool ℕ) × Step suc s₉ u))
stop_hashing_returns_example = stop_hashing_returns suc 2 5 first_steps refl refl last-Steps
