-- ===== src/Natives/Execute/Refusal.antt =====
-- Why a query is refused and with what text, and the player that `mysql_execute_for` binds a query
-- to, described apart from the code of src/natives.cpp.
use omp_my_sql.Prelude.{
  ℕ, ◌≤◌, ◌<◌, true, false, List, [], ◌∷◌, ◌++◌, length, Bytes, codes, ◌≡◌, ◌≢◌, refl, ap, arith,
}
use omp_my_sql.Prelude.Int.{ℤ}
use omp_my_sql.Sql.{is_multi_statement}
use omp_my_sql.Query.{CallbackArg, int_arg, float_arg, string_arg, QueryJob}
use omp_my_sql.Component.{
  Component, ConnectionWorker, GuardReject, none_rejected, unknown_handle, too_long, rate_limited,
  too_many_pending, multi_statement, pending, prune, log_of, guards_at, multi_statements_allowed,
  is_plain_query, check_guards,
}
use omp_my_sql.Natives.Execute.{guard_reject_text, bind_player}

-- The limit that a query breaks, with the text that names it.
pub data Refusal (c : Component) (job : QueryJob) (w : ConnectionWorker) (now : ℕ)
    : Bytes → Type 0 where
  over_length :
      is_plain_query job ≡ true
      → (guards_at c job.connection_handle).max_query_length ≢ 0
      → (guards_at c job.connection_handle).max_query_length < length job.sql
      → Refusal c job w now (codes "query exceeds the configured length limit")
  stacked :
      is_plain_query job ≡ true
      → multi_statements_allowed c job.connection_handle ≡ false
      → is_multi_statement job.sql ≡ true
      → Refusal c job w now
          (codes "multiple statements rejected (CLIENT_MULTI_STATEMENTS not enabled)")
  over_pending :
      (guards_at c job.connection_handle).max_pending_queries ≢ 0
      → (guards_at c job.connection_handle).max_pending_queries ≤ pending w
      → Refusal c job w now (codes "too many pending queries")
  over_rate :
      (guards_at c job.connection_handle).max_queries_per_window ≢ 0
      → (guards_at c job.connection_handle).max_queries_per_window
        ≤ length (
            prune
              (guards_at c job.connection_handle).rate_window
              now
              (log_of c job.connection_handle))
      → Refusal c job w now (codes "query rate limit exceeded")

module _ (c : Component) (job : QueryJob) (w : ConnectionWorker) (now : ℕ) where
  too_long-Refusal :
      (check_guards c job w now).1 ≡ too_long → Refusal c job w now (guard_reject_text too_long)
  unfolding check_guards guard_reject_text
  too_long-Refusal e = over_length (ground arith) (λ z. ground arith) (ground arith)

  multi_statement-Refusal :
      (check_guards c job w now).1 ≡ multi_statement
      → Refusal c job w now (guard_reject_text multi_statement)
  unfolding check_guards guard_reject_text
  multi_statement-Refusal e = stacked (ground arith) (ground arith) (ground arith)

  too_many_pending-Refusal :
      (check_guards c job w now).1 ≡ too_many_pending
      → Refusal c job w now (guard_reject_text too_many_pending)
  unfolding check_guards guard_reject_text
  too_many_pending-Refusal e = over_pending (λ z. ground arith) (ground arith)

  rate_limited-Refusal :
      (check_guards c job w now).1 ≡ rate_limited
      → Refusal c job w now (guard_reject_text rate_limited)
  unfolding check_guards guard_reject_text log_of
  rate_limited-Refusal e = over_rate (λ z. ground arith) (ground arith)

  pub check_guards-ne-unknown_handle : (check_guards c job w now).1 ≢ unknown_handle
  unfolding check_guards
  check_guards-ne-unknown_handle = ground arith

  -- A refusal names the limit that the query breaks.
  pub check_guards-Refusal :
      (reason : GuardReject)
      → (check_guards c job w now).1 ≡ reason
      → reason ≢ none_rejected
      → Refusal c job w now (guard_reject_text reason)
  check_guards-Refusal none_rejected e h = absurd (h refl)
  check_guards-Refusal unknown_handle e h = absurd (check_guards-ne-unknown_handle e)
  check_guards-Refusal too_long e h = too_long-Refusal e
  check_guards-Refusal rate_limited e h = rate_limited-Refusal e
  check_guards-Refusal too_many_pending e h = too_many_pending-Refusal e
  check_guards-Refusal multi_statement e h = multi_statement-Refusal e

-- No argument is an integer.
abbrev pub HasNoInteger : List CallbackArg → Type 0
HasNoInteger [] = Unit
HasNoInteger (int_arg v ∷ rest) = ⊥
HasNoInteger (float_arg v ∷ rest) = HasNoInteger rest
HasNoInteger (string_arg s ∷ rest) = HasNoInteger rest

-- The job bound to the player that is the first integer, and as it was if there is no integer.
pub data BoundTo (job : QueryJob) (args : List CallbackArg) (bound : QueryJob) : Type 0 where
  to_nobody : HasNoInteger args → bound ≡ job → BoundTo job args bound
  to_player :
      (before rest : List CallbackArg) (v : ℤ)
      → HasNoInteger before
      → args ≡ before ++ int_arg v ∷ rest
      → bound ≡ record job { bound_player = v }
      → BoundTo job args bound

-- Arguments in front of the first integer do not matter.
behind :
    (x : CallbackArg) (args : List CallbackArg) (job bound : QueryJob)
    → ((before : List CallbackArg) → HasNoInteger before → HasNoInteger (x ∷ before))
    → BoundTo job args bound
    → BoundTo job (x ∷ args) bound
behind x args job bound skips (to_nobody h e) = to_nobody (skips args h) e
behind x args job bound skips (to_player before rest v h same e) =
    to_player (x ∷ before) rest v (skips before h) (ap (λ t. x ∷ t) same) e

pub bind_player-BoundTo :
    (args : List CallbackArg) (job : QueryJob) → BoundTo job args (bind_player args job)
unfolding bind_player
bind_player-BoundTo [] job = to_nobody tt refl
bind_player-BoundTo (int_arg v ∷ rest) job = to_player [] rest v tt refl refl
bind_player-BoundTo (float_arg v ∷ rest) job =
    behind (float_arg v) rest job _ (λ before h. h) (bind_player-BoundTo rest job)
bind_player-BoundTo (string_arg s ∷ rest) job =
    behind (string_arg s) rest job _ (λ before h. h) (bind_player-BoundTo rest job)
