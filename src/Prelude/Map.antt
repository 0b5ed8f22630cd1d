-- ===== src/Prelude/Map.antt =====
-- `std::unordered_map<int, V>` as an association list. A negative key is never registered, and is
-- not represented.
use Prim.Native.Nat.{ℕ, ◌≤◌, ◌<◌}
use mathlib.Core.Logic.{◌⊎◌}
use mathlib.Core.Path.{◌≡◌, refl}
use mathlib.Core.List.{List, [], ◌∷◌, map}
use mathlib.Core.Option.{Option, none, some}
use native.Mathlib.Omega.{arith}
use omp_my_sql.Prelude.Tests.{◌==◌, if◌then◌else◌}

abbrev pub Map {ℓ} : Type ℓ → Type ℓ
Map V = List (ℕ × V)

module _ {ℓ} {V : Type ℓ} where
  -- `find`
  unfoldable pub lookup : ℕ → Map V → Option V
  lookup k [] = none
  lookup k ((j, v) ∷ m) = if j == k then some v else lookup k m

  -- `m[k] = v`
  unfoldable pub put : ℕ → V → Map V → Map V
  put k v [] = (k, v) ∷ []
  put k v ((j, w) ∷ m) = if j == k then (k, v) ∷ m else (j, w) ∷ put k v m

  -- `emplace`: an entry that is there stays.
  unfoldable pub emplace : ℕ → V → Map V → Map V
  emplace k v [] = (k, v) ∷ []
  emplace k v ((j, w) ∷ m) = if j == k then (j, w) ∷ m else (j, w) ∷ emplace k v m

  -- `erase`
  unfoldable pub erase : ℕ → Map V → Map V
  erase k [] = []
  erase k ((j, w) ∷ m) = let rest = erase k m in if j == k then rest else (j, w) ∷ rest

  abbrev pub keys : Map V → List ℕ
  keys = map (λ e. e.0)

  pub lookup-put :
      (k j : ℕ) (v : V) (m : Map V) → lookup j (put k v m) ≡ (if k == j then some v else lookup j m)
  unfolding lookup put
  lookup-put k j v [] = refl
  lookup-put k j v ((i, w) ∷ m) = ground (arith, lookup-put k j v m)

  pub lookup-emplace :
      (k j : ℕ) (v : V) (m : Map V)
      → lookup k m ≡ none
      → lookup j (emplace k v m) ≡ (if k == j then some v else lookup j m)
  unfolding lookup emplace
  lookup-emplace k j v [] h = refl
  lookup-emplace k j v ((i, w) ∷ m) h = ground (arith, lookup-emplace k j v m)

  pub lookup-emplace_cases :
      (k j : ℕ) (v w : V) (m : Map V)
      → lookup j (emplace k v m) ≡ some w
      → (v ≡ w) ⊎ (lookup j m ≡ some w)
  unfolding lookup emplace
  lookup-emplace_cases k j v w [] h = ground arith
  lookup-emplace_cases k j v w ((i, x) ∷ m) h = ground (arith, lookup-emplace_cases k j v w m)

  pub lookup-erase :
      (k j : ℕ) (m : Map V) → lookup j (erase k m) ≡ (if k == j then none else lookup j m)
  unfolding lookup erase
  lookup-erase k j [] = ground arith
  lookup-erase k j ((i, w) ∷ m) = ground (arith, lookup-erase k j m)

  -- Every key is below the bound: what a counter of handles keeps.
  abbrev pub KeysBelow : ℕ → Map V → Type 0
  KeysBelow n [] = Unit
  KeysBelow n ((j, v) ∷ m) = (j < n) × KeysBelow n m

  pub lookup_fresh : (n k : ℕ) (m : Map V) → KeysBelow n m → n ≤ k → lookup k m ≡ none
  unfolding lookup
  lookup_fresh n k [] b h = refl
  lookup_fresh n k ((j, v) ∷ m) b h = ground (arith, lookup_fresh n k m b.1)

  pub KeysBelow-mono : (n k : ℕ) (m : Map V) → n ≤ k → KeysBelow n m → KeysBelow k m
  KeysBelow-mono n k [] h b = tt
  KeysBelow-mono n k ((j, v) ∷ m) h b = (omega arith, KeysBelow-mono n k m h b.1)

  pub emplace-KeysBelow :
      (n k : ℕ) (v : V) (m : Map V) → k < n → KeysBelow n m → KeysBelow n (emplace k v m)
  unfolding emplace
  emplace-KeysBelow n k v [] h b = (h, tt)
  emplace-KeysBelow n k v ((j, w) ∷ m) h b = ground (arith, emplace-KeysBelow n k v m h b.1)

  pub put-KeysBelow :
      (n k : ℕ) (v : V) (m : Map V) → k < n → KeysBelow n m → KeysBelow n (put k v m)
  unfolding put
  put-KeysBelow n k v [] h b = (h, tt)
  put-KeysBelow n k v ((j, w) ∷ m) h b = ground (arith, put-KeysBelow n k v m h b.1)

  pub erase-KeysBelow : (n k : ℕ) (m : Map V) → KeysBelow n m → KeysBelow n (erase k m)
  unfolding erase
  erase-KeysBelow n k [] b = tt
  erase-KeysBelow n k ((j, w) ∷ m) b = ground (arith, erase-KeysBelow n k m b.1)

  pub lookup_below : (n k : ℕ) (v : V) (m : Map V) → KeysBelow n m → lookup k m ≡ some v → k < n
  unfolding lookup
  lookup_below n k v [] b h = cc
  lookup_below n k v ((j, w) ∷ m) b h = ground (arith, lookup_below n k v m b.1)
