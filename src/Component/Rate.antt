-- ===== src/Component/Rate.antt =====
-- The sliding-window rate limit of `checkGuards` (src/MySQLComponent.cpp) against a direct count of
-- the recent acceptances.
pub mod Window
use omp_my_sql.Prelude.{
  ℕ, ◌+◌, ◌≤◌, ◌<◌, Bool, true, false, List, [], ◌∷◌, ◌++◌, length, All, All-append, ◌≡◌, ◌≢◌, refl,
  sym, ◌∙◌, arith, ap, ap₂, append_assoc, Bool-cases, inl, inr, leb, ltb, ◌==◌, if◌then◌else◌, none,
}
use omp_my_sql.Prelude.Map.{lookup, put, lookup-put}
use omp_my_sql.Component.{
  Component, QueryGuards, GuardReject, none_rejected, rate_limited, prune, log_of, check_rate,
}
use omp_my_sql.Component.Rate.Window.{
  recent, Ascending, recent-append, recent_old, recent_fresh, length-prune, Tracks, dropped,
  dropped-prune, dropped-old, prune-Ascending, bounded_mono, prune-bounded, Ascending-snoc,
}

old_mono :
    (window last now : ℕ) (old : List ℕ)
    → last ≤ now
    → All (λ t. t + window < last) old
    → All (λ t. t + window < now) old
old_mono window last now [] h o = tt
old_mono window last now (t ∷ old) h o = (omega arith, old_mono window last now old h o.1)

prune-Tracks :
    (window : ℕ) (accepted : List ℕ) (last now : ℕ) (log : List ℕ)
    → last ≤ now
    → Tracks window accepted last log
    → Tracks window accepted now (prune window now log)
prune-Tracks window accepted last now log h k = record {
  old = k.old ++ dropped window now log;
  splits =
      k.splits
      ∙ ap (λ t. k.old ++ t) (dropped-prune window now log)
      ∙ sym (append_assoc k.old (dropped window now log) (prune window now log));
  old_is =
      All-append _ k.old (dropped window now log) (old_mono window last now k.old h k.old_is)
        (dropped-old window now log);
  ascending = prune-Ascending window now 0 log k.ascending;
  bounded = prune-bounded window now last log h k.bounded;
}

accept-Tracks :
    (window : ℕ) (accepted : List ℕ) (now : ℕ) (log : List ℕ)
    → Tracks window accepted now log
    → Tracks window (accepted ++ now ∷ []) now (log ++ now ∷ [])
accept-Tracks window accepted now log k = record {
  old = k.old;
  splits = ap (λ t. t ++ now ∷ []) k.splits ∙ append_assoc k.old log (now ∷ []);
  old_is = k.old_is;
  ascending = Ascending-snoc now 0 log k.ascending k.bounded (omega arith);
  bounded = All-append _ log (now ∷ []) k.bounded (omega arith);
}

recent-Tracks :
    (window : ℕ) (accepted : List ℕ) (last now : ℕ) (log : List ℕ)
    → last ≤ now
    → Tracks window accepted last log
    → length (prune window now log) ≡ recent window now accepted
recent-Tracks window accepted last now log h k = omega (
  arith,
  length-prune window now 0 log k.ascending,
  ap (recent window now) k.splits,
  recent-append window now k.old log,
  recent_old window last now k.old h k.old_is,
)

log_of-put :
    (c : Component) (handle : ℕ) (log : List ℕ)
    → log_of (record c { rate_log = put handle log c.rate_log }) handle ≡ log
unfolding log_of
log_of-put c handle log = ground (arith, lookup-put handle handle log c.rate_log)

-- One request at `now` behind the acceptances so far.
module _ (c : Component) (g : QueryGuards) (handle now : ℕ) (accepted : List ℕ) where
  abbrev admits : Bool
  admits = ltb (recent g.rate_window now accepted) g.max_queries_per_window

  check_rate-Tracks :
      (last : ℕ)
      → last ≤ now
      → g.max_queries_per_window ≢ 0
      → Tracks g.rate_window accepted last (log_of c handle)
      → let (c', reason) = check_rate c g handle now in
        (reason ≡ (if admits then none_rejected else rate_limited))
        × Tracks g.rate_window
            (if admits then accepted ++ now ∷ [] else accepted)
            now
            (log_of c' handle)
  unfolding check_rate
  check_rate-Tracks last h nz k =
      let log = prune g.rate_window now (log_of c handle) in
      let e = recent-Tracks g.rate_window accepted last now (log_of c handle) h k in
      let p = prune-Tracks g.rate_window accepted last now (log_of c handle) h k in
      let on : (g.max_queries_per_window == 0) ≡ false = ground arith in
      elim (Bool-cases admits) [
        | inl yes' ↦
            let free : leb g.max_queries_per_window (length log) ≡ false = ground (arith, e) in
            rw (yes', on, free)
              (
                refl,
                rw (log_of-put c handle (log ++ now ∷ []))
                    (accept-Tracks g.rate_window accepted now log p),
              )
        | inr no' ↦
            let full : leb g.max_queries_per_window (length log) ≡ true = ground (arith, e) in
            rw (no', on, full) (refl, rw (log_of-put c handle log) p)
      ]

-- Requests one after the other, by the code and by the count.
unfoldable pub rate_run : Component → QueryGuards → ℕ → List ℕ → List GuardReject
rate_run c g handle [] = []
rate_run c g handle (now ∷ times) =
    let (c', reason) = check_rate c g handle now in reason ∷ rate_run c' g handle times

unfoldable pub spec_run : QueryGuards → List ℕ → List ℕ → List GuardReject
spec_run g accepted [] = []
spec_run g accepted (now ∷ times) =
    let ok = ltb (recent g.rate_window now accepted) g.max_queries_per_window in
    (if ok then none_rejected else rate_limited)
    ∷ spec_run g (if ok then accepted ++ now ∷ [] else accepted) times

abbrev pub NonDecreasing : ℕ → List ℕ → Type 0
NonDecreasing = Ascending

rate_run-Tracks :
    (c : Component) (g : QueryGuards) (handle last : ℕ) (accepted times : List ℕ)
    → g.max_queries_per_window ≢ 0
    → Tracks g.rate_window accepted last (log_of c handle)
    → NonDecreasing last times
    → rate_run c g handle times ≡ spec_run g accepted times
unfolding rate_run spec_run
rate_run-Tracks c g handle last accepted [] nz k a = refl
rate_run-Tracks c g handle last accepted (now ∷ times) nz k a =
    let step = check_rate-Tracks c g handle now accepted last a.0 nz k in
    let c' = (check_rate c g handle now).0 in
    let accepted' = if admits c g handle now accepted then accepted ++ now ∷ [] else accepted in
    let later = rate_run-Tracks c' g handle now accepted' times nz step.1 a.1 in
    ap₂ ◌∷◌ step.0 later

-- Under a rate limit the requests on a fresh connection, at times of a clock that does not run
-- back, are accepted exactly as the count of recent acceptances says: a request is accepted if and
-- only if fewer than the limit were accepted in the window that ends with it.
pub rate_run-spec_run :
    (c : Component) (g : QueryGuards) (handle : ℕ) (times : List ℕ)
    → g.max_queries_per_window ≢ 0
    → lookup handle c.rate_log ≡ none
    → NonDecreasing 0 times
    → rate_run c g handle times ≡ spec_run g [] times
rate_run-spec_run c g handle times nz fresh a =
    rate_run-Tracks c g handle 0 [] times nz (rw none_logged empty_Tracks) a
  where
    none_logged : log_of c handle ≡ []
    none_logged = unfold log_of in rw (fresh, log_of)

    empty_Tracks : Tracks g.rate_window [] 0 []
    empty_Tracks = record { old = []; splits = refl; old_is = tt; ascending = tt; bounded = tt }
