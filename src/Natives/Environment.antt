-- ===== src/Natives/Environment.antt =====
-- `ExpandEnv` of src/natives.cpp; the environment is a parameter.
use omp_my_sql.Prelude.{
  ℕ, zero, suc, false, ◌&&◌, [], ◌∷◌, ◌++◌, Bytes, codes, ◌==◌, is_empty, length, Option, none,
  some, if◌then◌else◌, ◌≡◌, refl, ◌∙◌, ap,
}

-- The text before the first `}`.
unfoldable pub name_before : Bytes → Option Bytes
name_before [] = none
name_before (c ∷ rest) =
    let later = name_before rest in
    if c == b'}' then some [] else elim later [ none ↦ none | some n ↦ some (c ∷ n) ]

-- The variable that starts here, behind its `$`.
unfoldable pub name_at : ℕ → Bytes → Option Bytes
unfolding name_before
name_at c [] = none
name_at c (b ∷ rest) = if c == b'$' && b == b'{' then name_before rest else none

-- The value of a variable: none for the empty name or for a variable that is not set.
unfoldable value_of : (Bytes → Option Bytes) → Bytes → Bytes
value_of env name = if is_empty name then [] else elim (env name) [ none ↦ [] | some v ↦ v ]

-- The loop of `ExpandEnv`; the number is how many bytes of a variable are still to be passed over.
unfoldable pub expand_loop : (Bytes → Option Bytes) → ℕ → Bytes → Bytes
unfolding name_at value_of
expand_loop env skip [] = []
expand_loop env (suc skip) (c ∷ rest) = expand_loop env skip rest
expand_loop env zero (c ∷ rest) = elim (name_at c rest) [
  | none ↦ c ∷ expand_loop env 0 rest
  | some name ↦ value_of env name ++ expand_loop env (suc (suc (length name))) rest
]

-- `ExpandEnv`
unfoldable pub expand_env : (Bytes → Option Bytes) → Bytes → Bytes
unfolding expand_loop
expand_env env s = expand_loop env 0 s

-- The byte does not occur.
abbrev Lacks : ℕ → Bytes → Type 0
Lacks b [] = Unit
Lacks b (c ∷ rest) = ((c == b) ≡ false) × Lacks b rest

-- A name ends at the first `}`.
name_before-close :
    (name rest : Bytes) → Lacks b'}' name → name_before (name ++ b'}' ∷ rest) ≡ some name
unfolding name_before
name_before-close [] rest h = refl
name_before-close (c ∷ name) rest h = rw (h.0, name_before-close name rest h.1) refl

-- The name and the `}` are passed over.
expand_loop-close :
    (env : Bytes → Option Bytes) (name rest : Bytes)
    → expand_loop env (suc (length name)) (name ++ b'}' ∷ rest) ≡ expand_loop env 0 rest
unfolding expand_loop
expand_loop-close env [] rest = refl
expand_loop-close env (c ∷ name) rest = expand_loop-close env name rest

name_at-plain : (c : ℕ) (rest : Bytes) → (c == b'$') ≡ false → name_at c rest ≡ none
unfolding name_at
name_at-plain c [] h = refl
name_at-plain c (b ∷ rest) h = rw h refl

-- Text without a `$` passes through.
expand_loop-literal :
    (env : Bytes → Option Bytes) (a rest : Bytes)
    → Lacks b'$' a
    → expand_loop env 0 (a ++ rest) ≡ a ++ expand_loop env 0 rest
unfolding expand_loop
expand_loop-literal env [] rest h = refl
expand_loop-literal env (c ∷ a) rest h =
    rw (expand_loop, name_at-plain c (a ++ rest) h.0)
      (ap (λ t. c ∷ t) (expand_loop-literal env a rest h.1))

-- A variable is replaced by its value.
expand_loop-reference :
    (env : Bytes → Option Bytes) (name rest : Bytes)
    → Lacks b'}' name
    → expand_loop env 0 (b'$' ∷ b'{' ∷ (name ++ b'}' ∷ rest))
      ≡ value_of env name ++ expand_loop env 0 rest
unfolding expand_loop name_at
expand_loop-reference env name rest h =
    rw (expand_loop, name_at, name_before-close name rest h)
      (ap (λ t. value_of env name ++ t) (expand_loop-close env name rest))

-- What a variable stands for: its value, and nothing if it is not set or has no name.
pub data StandsFor (env : Bytes → Option Bytes) : Bytes → Bytes → Type 0 where
  no_name : StandsFor env [] []
  is_unset : (name : Bytes) → env name ≡ none → StandsFor env name []
  is_set : (c : ℕ) (name v : Bytes) → env (c ∷ name) ≡ some v → StandsFor env (c ∷ name) v

value_of-StandsFor :
    (env : Bytes → Option Bytes) (name v : Bytes) → StandsFor env name v → value_of env name ≡ v
unfolding value_of
value_of-StandsFor env name v no_name = refl
value_of-StandsFor env name v (is_unset [] e) = refl
value_of-StandsFor env name v (is_unset (c ∷ n) e) = rw e refl
value_of-StandsFor env name v (is_set c n w e) = rw e refl

-- The text before a variable, in which there is no `$`, is kept; the variable, whose name has no `}`,
-- is replaced by its value, which is not expanded again, and by nothing if it is not set or if the
-- name is empty; and what follows is expanded.
pub expand_env-reference :
    (env : Bytes → Option Bytes) (a name rest v : Bytes)
    → Lacks b'$' a
    → Lacks b'}' name
    → StandsFor env name v
    → expand_env env (a ++ (codes "${" ++ (name ++ b'}' ∷ rest))) ≡ a ++ (v ++ expand_env env rest)
unfolding expand_env
expand_env-reference env a name rest v h g value =
    expand_loop-literal env a (b'$' ∷ b'{' ∷ (name ++ b'}' ∷ rest)) h
    ∙ ap (λ t. a ++ t) (expand_loop-reference env name rest g)
    ∙ ap (λ t. a ++ (t ++ expand_loop env 0 rest)) (value_of-StandsFor env name v value)
