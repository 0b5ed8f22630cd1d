-- ===== src/Component/Rate/Window.antt =====
-- The window of the rate limit of `checkGuards` (src/MySQLComponent.cpp): what is recent, and what
-- the log keeps.
use omp_my_sql.Prelude.{
  ℕ, ◌+◌, ◌≤◌, ◌<◌, List, [], ◌∷◌, ◌++◌, length, All, ◌≡◌, refl, arith, leb, ltb, if◌then◌else◌,
}
use omp_my_sql.Component.{prune}

-- How many of the times lie in the window that ends at `now`.
unfoldable pub recent : ℕ → ℕ → List ℕ → ℕ
recent window now [] = 0
recent window now (t ∷ ts) = (if leb now (t + window) then 1 else 0) + recent window now ts

abbrev pub Ascending : ℕ → List ℕ → Type 0
Ascending lo [] = Unit
Ascending lo (t ∷ ts) = (lo ≤ t) × Ascending t ts

pub recent-append :
    (window now : ℕ) (xs ys : List ℕ)
    → recent window now (xs ++ ys) ≡ recent window now xs + recent window now ys
unfolding recent
recent-append window now [] ys = omega arith
recent-append window now (x ∷ xs) ys = omega (arith, recent-append window now xs ys)

pub recent_old :
    (window last now : ℕ) (old : List ℕ)
    → last ≤ now
    → All (λ t. t + window < last) old
    → recent window now old ≡ 0
unfolding recent
recent_old window last now [] h o = refl
recent_old window last now (t ∷ old) h o = ground (arith, recent_old window last now old h o.1)

pub recent_fresh :
    (window now lo : ℕ) (log : List ℕ)
    → now ≤ lo + window
    → Ascending lo log
    → recent window now log ≡ length log
unfolding recent
recent_fresh window now lo [] h a = refl
recent_fresh window now lo (t ∷ log) h a =
    ground (arith, recent_fresh window now t log (omega arith) a.1)

pub length-prune :
    (window now lo : ℕ) (log : List ℕ)
    → Ascending lo log
    → length (prune window now log) ≡ recent window now log
unfolding prune recent
length-prune window now lo [] a = refl
length-prune window now lo (t ∷ log) a =
    ground (arith, length-prune window now t log a.1, recent_fresh window now t log)

-- The log holds the acceptances that may still count at `last` or later, oldest first.
pub record Tracks (window : ℕ) (accepted : List ℕ) (last : ℕ) (log : List ℕ) : Type 0 where
  pub old : List ℕ
  pub splits : accepted ≡ old ++ log
  pub old_is : All (λ t. t + window < last) old
  pub ascending : Ascending 0 log
  pub bounded : All (λ t. t ≤ last) log

-- What `prune` drops.
pub dropped : ℕ → ℕ → List ℕ → List ℕ
dropped window now [] = []
dropped window now (t ∷ log) =
    let rest = dropped window now log in if ltb (t + window) now then t ∷ rest else []

pub dropped-prune :
    (window now : ℕ) (log : List ℕ) → log ≡ dropped window now log ++ prune window now log
unfolding prune dropped
dropped-prune window now [] = refl
dropped-prune window now (t ∷ log) = ground (arith, dropped-prune window now log)

pub dropped-old :
    (window now : ℕ) (log : List ℕ) → All (λ t. t + window < now) (dropped window now log)
unfolding dropped
dropped-old window now [] = tt
dropped-old window now (t ∷ log) = ground (arith, dropped-old window now log)

Ascending-mono : (lo hi : ℕ) (log : List ℕ) → lo ≤ hi → Ascending hi log → Ascending lo log
Ascending-mono lo hi [] h a = tt
Ascending-mono lo hi (t ∷ log) h a = (omega arith, a.1)

pub prune-Ascending :
    (window now lo : ℕ) (log : List ℕ) → Ascending lo log → Ascending lo (prune window now log)
unfolding prune
prune-Ascending window now lo [] a = tt
prune-Ascending window now lo (t ∷ log) a =
    ground (arith, prune-Ascending window now t log a.1, Ascending-mono lo t (prune window now log))

pub bounded_mono :
    (last now : ℕ) (log : List ℕ) → last ≤ now → All (λ t. t ≤ last) log → All (λ t. t ≤ now) log
bounded_mono last now [] h b = tt
bounded_mono last now (t ∷ log) h b = (omega arith, bounded_mono last now log h b.1)

pub prune-bounded :
    (window now last : ℕ) (log : List ℕ)
    → last ≤ now
    → All (λ t. t ≤ last) log
    → All (λ t. t ≤ now) (prune window now log)
unfolding prune
prune-bounded window now last [] h b = tt
prune-bounded window now last (t ∷ log) h b =
    ground (arith, prune-bounded window now last log h b.1, bounded_mono last now log h b.1)

pub Ascending-snoc :
    (now lo : ℕ) (log : List ℕ)
    → Ascending lo log
    → All (λ t. t ≤ now) log
    → lo ≤ now
    → Ascending lo (log ++ now ∷ [])
Ascending-snoc now lo [] a b h = (h, tt)
Ascending-snoc now lo (t ∷ log) a b h = (a.0, Ascending-snoc now t log a.1 b.1 b.0)
