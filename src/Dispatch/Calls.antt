-- ===== src/Dispatch/Calls.antt =====
-- The calls that the dispatch of src/MySQLComponent.cpp makes for one job, against those described
-- in Dispatch/Expected.
use omp_my_sql.Prelude.{
  ℕ, Bool, true, false, not, List, [], ◌∷◌, ◌++◌, map, reverse, append_assoc, append-nil, codes,
  Option, none, some, if◌then◌else◌, ◌≡◌, refl, sym, ◌∙◌, ap, arith,
}
use mathlib.Core.List.{reverse_aux}
use omp_my_sql.Amx.{Amx}
use omp_my_sql.Query.{CallbackArg, int_arg, float_arg, string_arg, QueryJob}
use omp_my_sql.Dispatch.Expected.{
  shown, first, addressees, has_left, on_query_execute, error_of, callback_of, calls_of,
  expected_calls, find_script-owner, target-addressees, is_gone-has_left,
}
use omp_my_sql.Dispatch.{
  Pushed, pushed_cell, pushed_string, Invocation, Host, World, arg_of, push_all, invoke,
  fire_query_execute_hook, report_error, run_callback, target, is_gone, audit, write_back,
  dispatch_job,
}

push_all-reverse_aux :
    (xs acc : List CallbackArg) (stack : List Pushed)
    → push_all (reverse_aux xs acc) stack ≡ push_all acc (map arg_of xs ++ stack)
unfolding push_all
push_all-reverse_aux [] acc stack = refl
push_all-reverse_aux (x ∷ xs) acc stack = push_all-reverse_aux xs (x ∷ acc) stack

arg_of-shown : (xs : List CallbackArg) → map arg_of xs ≡ map shown xs
arg_of-shown [] = refl
arg_of-shown (int_arg v ∷ xs) = ap (λ t. pushed_cell v ∷ t) (arg_of-shown xs)
arg_of-shown (float_arg v ∷ xs) = ap (λ t. pushed_cell v ∷ t) (arg_of-shown xs)
arg_of-shown (string_arg s ∷ xs) = ap (λ t. pushed_string s ∷ t) (arg_of-shown xs)

pub push_all-reverse :
    (xs : List CallbackArg) (stack : List Pushed)
    → push_all (reverse xs) stack ≡ map shown xs ++ stack
unfolding push_all
push_all-reverse xs stack =
    push_all-reverse_aux xs [] stack ∙ ap (λ t. t ++ stack) (arg_of-shown xs)

module _ (a : Amx) (host : Host a) where
  invoke-calls :
      (call : Invocation) (w : World a) → (invoke a host call w).calls ≡ w.calls ++ call ∷ []
  unfolding invoke
  invoke-calls call w = refl

  write_back-calls : (job : QueryJob) (w : World a) → (write_back a host job w).calls ≡ w.calls
  unfolding write_back
  write_back-calls job w = ground arith

  audit-calls :
      (job : QueryJob) (w : World a)
      → (audit a host job w).calls ≡ w.calls ++ on_query_execute a host job
  unfolding audit fire_query_execute_hook invoke
  audit-calls job w =
      ground (arith, append-nil w.calls, find_script-owner a host (codes "OnQueryExecute"))

  report_error-calls :
      (job : QueryJob) (w : World a)
      → (report_error a host job w).calls ≡ w.calls ++ error_of a host job
  unfolding report_error invoke
  report_error-calls job w =
      ground (arith, append-nil w.calls, find_script-owner a host (codes "OnQueryError"))

  run_callback-calls :
      (script : ℕ) (job : QueryJob) (w : World a)
      → (run_callback a host script job w).calls ≡ w.calls ++ callback_of a host script job
  unfolding run_callback invoke
  run_callback-calls script job w =
      ground
        (arith, append-nil w.calls, push_all-reverse job.args [], append-nil (map shown job.args))

  abbrev pub settle : ℕ → QueryJob → World a → World a
  settle script job w =
      if is_gone a host job
      then w
      else if not job.succeeded
      then report_error a host job w
      else run_callback a host script job w

  -- What is left of the calls when the hook has been called.
  abbrev outcome_of : ℕ → QueryJob → List Invocation
  outcome_of script job =
      if has_left a host job.bound_player
      then []
      else if job.succeeded
      then callback_of a host script job
      else error_of a host job

  settle-calls :
      (script : ℕ) (job : QueryJob) (w : World a)
      → (settle script job w).calls ≡ w.calls ++ outcome_of script job
  settle-calls script job w = ground (
    arith,
    append-nil w.calls,
    is_gone-has_left a host job,
    report_error-calls job w,
    run_callback-calls script job w,
  )

  settled-calls :
      (script : ℕ) (job : QueryJob) (w : World a)
      → (settle script job (write_back a host job (audit a host job w))).calls
        ≡ w.calls ++ calls_of a host script job
  settled-calls script job w =
      settle-calls script job (write_back a host job (audit a host job w))
      ∙ ap (λ t. t ++ outcome_of script job)
          (write_back-calls job (audit a host job w) ∙ audit-calls job w)
      ∙ append_assoc w.calls (on_query_execute a host job) (outcome_of script job)

  -- The calls of a job that goes to this script, if there is one.
  abbrev calls_at : Bool → Option ℕ → QueryJob → List Invocation
  calls_at pawn o job =
      if pawn then elim o [ none ↦ [] | some script ↦ calls_of a host script job ] else []

  dispatch_job-at :
      (pawn : Bool) (o : Option ℕ) (w : World a) (job : QueryJob)
      → (if pawn
          then elim o as (λ x. World a) [
            | none ↦ w
            | some script ↦ settle script job (write_back a host job (audit a host job w))
          ]
          else w).calls
        ≡ w.calls ++ calls_at pawn o job
  dispatch_job-at false o w job = sym (append-nil w.calls)
  dispatch_job-at true none w job = sym (append-nil w.calls)
  dispatch_job-at true (some script) w job = settled-calls script job w

  calls_at-agree :
      (pawn : Bool) (o o' : Option ℕ) (job : QueryJob)
      → (pawn ≡ true → o ≡ o')
      → calls_at pawn o job ≡ calls_at pawn o' job
  calls_at-agree true o o' job same = ap (λ x. calls_at true x job) (same refl)
  calls_at-agree false o o' job same = refl

  -- Dispatching a finished job calls exactly what is expected of it.
  pub dispatch_job-calls :
      (w : World a) (job : QueryJob)
      → (dispatch_job a host w job).calls ≡ w.calls ++ expected_calls a host job
  unfolding dispatch_job
  dispatch_job-calls w job =
      dispatch_job-at host.has_pawn (target a host job) w job
      ∙ ap (λ t. w.calls ++ t)
          (calls_at-agree host.has_pawn (target a host job) (first (addressees a host job)) job
            (target-addressees a host job))
