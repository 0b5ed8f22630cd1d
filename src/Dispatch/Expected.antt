-- ===== src/Dispatch/Expected.antt =====
-- An independent description of the calls that the delivery of src/MySQLComponent.cpp is to make.
use omp_my_sql.Prelude.{
  ℕ, Bool, true, false, not, List, [], ◌∷◌, ◌++◌, map, Bytes, codes, is_empty, Option, none, some,
  if◌then◌else◌, ◌≡◌, refl, arith,
}
use omp_my_sql.Prelude.Int.{ℤ, pos, negsuc}
use omp_my_sql.Amx.{Amx}
use omp_my_sql.Query.{CallbackArg, int_arg, float_arg, string_arg, QueryJob}
use omp_my_sql.Dispatch.Scripts.{
  HashJob, hash, verify, Pushed, pushed_cell, pushed_string, Invocation, Host,
}
use omp_my_sql.Dispatch.{find_side, find_script, target, is_gone}

-- The first of a list.
abbrev pub first : List ℕ → Option ℕ
first [] = none
first (s ∷ rest) = some s

-- What a script sees of an argument.
abbrev pub shown : CallbackArg → Pushed
shown (int_arg v) = pushed_cell v
shown (float_arg v) = pushed_cell v
shown (string_arg s) = pushed_string s

module _ (a : Amx) (host : Host a) where
  -- The scripts among these that have the public function.
  abbrev pub having : Bytes → List (Option ℕ) → List ℕ
  having name [] = []
  having name (none ∷ rest) = having name rest
  having name (some s ∷ rest) =
      let later = having name rest in if host.has_public s name then s ∷ later else later

  -- The scripts that have the public function, the gamemode before the filterscripts.
  abbrev pub owners : Bytes → List ℕ
  owners name = having name (host.main_script ∷ host.side_scripts)

  -- The first of them, if there are scripts at all.
  abbrev pub owner : Bytes → Option ℕ
  owner name = if host.has_pawn then first (owners name) else none

  -- Where the outcome of a job goes: to the owner of its callback, and else to the gamemode.
  abbrev pub addressees : QueryJob → List ℕ
  addressees job =
      (if is_empty job.callback then [] else owners job.callback)
      ++ elim host.main_script [ none ↦ [] | some s ↦ s ∷ [] ]

  -- A job bound to a player is for nobody when the player is not connected.
  abbrev pub has_left : ℤ → Bool
  has_left (negsuc n) = false
  has_left (pos p) = if host.has_core then not (host.is_connected p) else false

  -- `OnQueryExecute`, with its arguments as they arrive: the handle, the time and the query.
  abbrev pub on_query_execute : QueryJob → List Invocation
  on_query_execute job = elim job.result [
    | none ↦ []
    | some r ↦ elim (owner (codes "OnQueryExecute")) [
      | none ↦ []
      | some s ↦
          if job.succeeded
          then record {
            script = s;
            name = codes "OnQueryExecute";
            stack =
                pushed_cell (pos job.connection_handle)
                ∷ pushed_cell (pos r.exec_time_micros)
                ∷ pushed_string job.sql
                ∷ [];
          }
            ∷ []
          else []
    ]
  ]

  -- A call of `OnQueryError` by its arguments as they arrive, which is the order of the forward; the
  -- three texts remain on the stack behind them.
  abbrev pub on_query_error : ℕ → ℕ → Bytes → Bytes → Bytes → ℕ → Invocation
  on_query_error script errorid error callback query handle =
      let args : List Pushed =
        pushed_cell (pos errorid)
        ∷ pushed_string error
        ∷ pushed_string callback
        ∷ pushed_string query
        ∷ pushed_cell (pos handle)
        ∷ [] in
      let left : List Pushed =
        pushed_string callback ∷ pushed_string error ∷ pushed_string query ∷ [] in
      record { script = script; name = codes "OnQueryError"; stack = args ++ left }

  abbrev pub error_of : QueryJob → List Invocation
  error_of job = elim (owner (codes "OnQueryError")) [
    | none ↦ []
    | some s ↦
        on_query_error s job.error_code job.error job.callback job.sql job.connection_handle ∷ []
  ]

  abbrev pub callback_of : ℕ → QueryJob → List Invocation
  callback_of script job =
      if is_empty job.callback
      then []
      else if host.has_public script job.callback
      then record { script = script; name = job.callback; stack = map shown job.args } ∷ []
      else []

  -- The calls that a finished job is to cause: the audit hook if it succeeded, then, unless its
  -- player has left, the error hook or the callback.
  abbrev pub calls_of : ℕ → QueryJob → List Invocation
  calls_of script job =
      on_query_execute job
      ++ (if has_left job.bound_player
          then []
          else if job.succeeded
          then callback_of script job
          else error_of job)

  abbrev pub expected_calls : QueryJob → List Invocation
  expected_calls job =
      if host.has_pawn
      then elim (first (addressees job)) [ none ↦ [] | some script ↦ calls_of script job ]
      else []

  -- The call that a finished hash job is to cause: the arguments in their order, then the result.
  abbrev pub expected_hash : HashJob → List Invocation
  expected_hash job =
      let answer : Pushed = elim job.op [
        | hash ↦ pushed_string job.result
        | verify ↦ pushed_cell (if job.verified then pos 1 else pos 0)
      ] in
      elim (owner job.callback) [
        | none ↦ []
        | some s ↦
            if is_empty job.callback
            then []
            else record {
              script = s;
              name = job.callback;
              stack = map shown job.args ++ answer ∷ [];
            }
              ∷ []
      ]

  find_side-having :
      (name : Bytes) (side : List (Option ℕ))
      → find_side a host name side ≡ first (having name side)
  unfolding find_side
  find_side-having name [] = refl
  find_side-having name (none ∷ rest) = find_side-having name rest
  find_side-having name (some s ∷ rest) = ground (arith, find_side-having name rest)

  find_script_when :
      (o : Option ℕ) (name : Bytes)
      → elim o as (λ x. Option ℕ) [
        | none ↦ find_side a host name host.side_scripts
        | some s ↦
            if host.has_public s name then some s else find_side a host name host.side_scripts
      ]
        ≡ first (having name (o ∷ host.side_scripts))
  find_script_when none name = find_side-having name host.side_scripts
  find_script_when (some s) name = ground (arith, find_side-having name host.side_scripts)

  owner_when :
      (pawn : Bool) (o : Option ℕ) (name : Bytes)
      → (if pawn
          then elim o as (λ x. Option ℕ) [
            | none ↦ find_side a host name host.side_scripts
            | some s ↦
                if host.has_public s name then some s else find_side a host name host.side_scripts
          ]
          else none)
        ≡ (if pawn then first (having name (o ∷ host.side_scripts)) else none)
  owner_when true o name = find_script_when o name
  owner_when false o name = refl

  -- The script that is found is the first that has the public function.
  pub find_script-owner : (name : Bytes) → find_script a host name ≡ owner name
  unfolding find_script
  find_script-owner name = owner_when host.has_pawn host.main_script name

  target_when :
      (e : Bool) (found : List ℕ) (o : Option ℕ)
      → elim (if e then none else first found) as (λ x. Option ℕ) [ none ↦ o | some s ↦ some s ]
        ≡ first ((if e then [] else found) ++ elim o [ none ↦ [] | some s ↦ s ∷ [] ])
  target_when true found none = refl
  target_when true found (some s) = refl
  target_when false [] none = refl
  target_when false [] (some s) = refl
  target_when false (f ∷ found) o = refl

  -- The script that a job goes to is the first of the addressees.
  pub target-addressees :
      (job : QueryJob) → host.has_pawn ≡ true → target a host job ≡ first (addressees job)
  unfolding target
  target-addressees job pawn =
      rw (target, find_script-owner job.callback, pawn)
        (target_when (is_empty job.callback) (owners job.callback) host.main_script)

  pub is_gone-has_left : (job : QueryJob) → is_gone a host job ≡ has_left job.bound_player
  unfolding is_gone
  is_gone-has_left job = ground arith
