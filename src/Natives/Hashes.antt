-- ===== src/Natives/Hashes.antt =====
-- The natives of password hashing in src/natives.cpp. A job that `enqueueHash` takes goes to the end
-- of the work of the pool.
pub mod Delivery
mod Tests
use omp_my_sql.Prelude.{ℕ, Bool, true, false, List, [], ◌∷◌, ◌++◌, Bytes, length, none}
use omp_my_sql.Prelude.Int.{ℤ}
use omp_my_sql.Amx.{Amx}
use omp_my_sql.Natives.Format.{amx_string_param}
use omp_my_sql.Natives.Models.{decode_format}
use omp_my_sql.Dispatch.{HashJob, hash, verify}
use omp_my_sql.Hashing.{Argon2, default_params, hash_argon2id, verify_password}

module _ (a : Amx) (mem : a.Memory) where
  abbrev pub text : ℤ → Bytes
  text = amx_string_param a none mem

  -- The job of `mysql_hash`: the cell behind the format is the algorithm, which is not read.
  abbrev pub hash_job : ℤ → ℤ → HashJob
  hash_job password callback = record {
    op = hash;
    password = text password;
    encoded = [];
    callback = text callback;
    args = [];
    result = [];
    verified = false;
  }

  -- `mysql_hash`
  unfoldable pub mysql_hash : List ℤ → List HashJob → List HashJob × Bool
  unfolding decode_format
  mysql_hash (password ∷ callback ∷ []) work = (work ++ (hash_job password callback ∷ []), true)
  mysql_hash (password ∷ callback ∷ format ∷ []) work =
      let args = decode_format a mem (text format) [] in
      (work ++ (record (hash_job password callback) { args = args } ∷ []), true)
  mysql_hash (password ∷ callback ∷ format ∷ algo ∷ values) work =
      let args = decode_format a mem (text format) values in
      (work ++ (record (hash_job password callback) { args = args } ∷ []), true)
  mysql_hash _ work = (work, false)

  -- The job of `mysql_verify`.
  abbrev pub verify_job : ℤ → ℤ → ℤ → HashJob
  verify_job password encoded callback = record {
    op = verify;
    password = text password;
    encoded = text encoded;
    callback = text callback;
    args = [];
    result = [];
    verified = false;
  }

  -- `mysql_verify`: the format is read only if a value stands behind it.
  unfoldable pub mysql_verify : List ℤ → List HashJob → List HashJob × Bool
  unfolding decode_format
  mysql_verify (password ∷ encoded ∷ callback ∷ format ∷ value ∷ values) work =
      let args = decode_format a mem (text format) (value ∷ values) in
      (work ++ (record (verify_job password encoded callback) { args = args } ∷ []), true)
  mysql_verify (password ∷ encoded ∷ callback ∷ _) work =
      (work ++ (verify_job password encoded callback ∷ []), true)
  mysql_verify _ work = (work, false)

-- `mysql_hash_sync`: the text for the script, and its length.
unfoldable pub mysql_hash_sync : Argon2 → (ℕ → ℕ) → Bytes → Bytes × ℕ
unfolding hash_argon2id
mysql_hash_sync k device password =
    let h = hash_argon2id k default_params device password in (h, length h)

-- `mysql_verify_sync`
unfoldable pub mysql_verify_sync : Argon2 → Bytes → Bytes → Bool
unfolding verify_password
mysql_verify_sync k password encoded = verify_password k password encoded
