-- ===== src/Natives/Hashes/Delivery.antt =====
-- From `mysql_verify` of src/natives.cpp to the callback, by way of the hashing pool.
use omp_my_sql.Prelude.{
  ℕ, true, false, List, [], ◌∷◌, ◌++◌, append-nil, map, Bytes, is_empty, some, ◌≡◌, ◌≢◌, refl, sym,
  ◌∙◌, ap,
}
use omp_my_sql.Prelude.Int.{ℤ, pos}
use omp_my_sql.Amx.{Amx}
use omp_my_sql.Query.{CallbackArg}
use omp_my_sql.Natives.Models.{decode_format}
use omp_my_sql.Dispatch.{
  HashJob, verify, pushed_cell, Invocation, Host, World, find_script, on_tick,
}
use omp_my_sql.Dispatch.Expected.{shown, expected_hash, find_script-owner}
use omp_my_sql.Dispatch.Tick.{all_calls, on_tick-calls}
use omp_my_sql.Hashing.{
  Argon2, Argon2Params, argon2id, default_params, c_str, run_hash, hash_argon2id-verify,
}
use omp_my_sql.Natives.Hashes.{text, verify_job, mysql_verify, mysql_hash_sync}

module _ (a : Amx) (host : Host a) (k : Argon2) where
  -- The call of a callback with its arguments and the answer that a password fits.
  abbrev pub confirmation : ℕ → Bytes → List CallbackArg → Invocation
  confirmation script name args = record {
    script = script;
    name = name;
    stack = map shown args ++ pushed_cell (pos 1) ∷ [];
  }

  expected_hash-verified :
      (script : ℕ) (job : HashJob)
      → job.op ≡ verify
      → job.verified ≡ true
      → find_script a host job.callback ≡ some script
      → is_empty job.callback ≡ false
      → expected_hash a host job ≡ confirmation script job.callback job.args ∷ []
  expected_hash-verified script job op ok found named =
      let owned = sym (find_script-owner a host job.callback) ∙ found in
      rw (expected_hash, owned, named, op, ok) refl

  -- If a script passes `mysql_verify` a password and the text, not empty, that `mysql_hash_sync` gave
  -- for the same password, then the next tick after a thread of the pool has run the job calls the
  -- callback with the arguments that the format names, and then 1, behind the calls of the waiting
  -- results of queries, if the Argon2 library accepts what it encoded and a script has the callback.
  pub mysql_verify-on_tick :
      (device device' : ℕ → ℕ) (script : ℕ) (password encoded callback format value : ℤ)
      (values : List ℤ) (w : World a)
      → ((params : Argon2Params) (password salt encoded : Bytes)
          → k.hash_encoded params password salt ≡ some encoded
          → k.accepts argon2id (c_str encoded) password ≡ true)
      → text a w.memory encoded ≡ (mysql_hash_sync k device (text a w.memory password)).0
      → text a w.memory encoded ≢ []
      → find_script a host (text a w.memory callback) ≡ some script
      → is_empty (text a w.memory callback) ≡ false
      → let params = password ∷ encoded ∷ callback ∷ format ∷ value ∷ values in
        let (work, taken) = mysql_verify a w.memory params [] in
        let args = decode_format a w.memory (text a w.memory format) (value ∷ values) in
        (taken ≡ true)
        × ((on_tick a host (record w { hashes = map (run_hash k device') work })).calls
            ≡ (w.calls ++ all_calls a host w.component.completed)
              ++ confirmation script (text a w.memory callback) args ∷ [])
  unfolding mysql_verify mysql_hash_sync run_hash
  mysql_verify-on_tick device device' script password encoded callback format value values w law
        same made found named =
      let args = decode_format a w.memory (text a w.memory format) (value ∷ values) in
      let job = record (verify_job a w.memory password encoded callback) { args = args } in
      let fits =
        hash_argon2id-verify k default_params device (text a w.memory password)
          (text a w.memory encoded) law same made in
      (
        refl,
        on_tick-calls a host _
            ∙ ap (λ calls. (w.calls ++ all_calls a host w.component.completed) ++ calls)
                (append-nil _
                  ∙ expected_hash-verified script (run_hash k device' job) refl fits found named),
      )
