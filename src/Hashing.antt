-- ===== src/Hashing.antt =====
-- src/Hashing.cpp, and what `hashLoop` of src/QueryQueue.cpp does with a job. The Argon2 library and
-- the operating system's random numbers are parameters.
use omp_my_sql.Prelude.{
  ℕ, zero, suc, ◌*◌, ◌%◌, ◌^◌, Bool, true, false, [], ◌∷◌, Bytes, ◌==◌, is_empty, Option, none,
  some, ◌||◌, if◌then◌else◌, ◌≡◌, ◌≢◌, refl, ap, ◌∙◌, Option-cases, Bool-cases, inl, inr,
}
use omp_my_sql.Dispatch.{HashJob, hash, verify}

-- The variants of Argon2.
pub data Variant : Type 0 where
  argon2id argon2i argon2d : Variant

-- `Argon2Params`
pub record Argon2Params : Type 0 where
  pub time_cost : ℕ
  pub memory_kib : ℕ
  pub parallelism : ℕ
  pub salt_len : ℕ
  pub hash_len : ℕ

abbrev pub default_params : Argon2Params
default_params = record {
  time_cost = 3;
  memory_kib = 64 * 1024;
  parallelism = 1;
  salt_len = 16;
  hash_len = 32;
}

pub record Argon2 : Type 0 where
  -- `argon2id_hash_encoded` of a password and a salt: the buffer it fills, if it returns `ARGON2_OK`
  pub hash_encoded : Argon2Params → Bytes → Bytes → Option Bytes
  -- Does `argon2_verify` of an encoded hash and a password return `ARGON2_OK`?
  pub accepts : Variant → Bytes → Bytes → Bool

-- A string that is read up to its NUL.
unfoldable pub c_str : Bytes → Bytes
c_str [] = []
c_str (c ∷ rest) = let s = c_str rest in if c == 0 then [] else c ∷ s

-- `csprng`, from the numbers that the random device gives, as many as are asked for.
unfoldable pub csprng : ℕ → (ℕ → ℕ) → Bytes
csprng zero device = []
csprng (suc n) device = device 0 % 2 ^ 8 ∷ csprng n (λ i. device (suc i))

is_empty-false : (s : Bytes) → s ≢ [] → is_empty s ≡ false
is_empty-false [] h = absurd (h refl)
is_empty-false (c ∷ s) h = refl

module _ (k : Argon2) where
  -- `hashArgon2id`
  unfoldable pub hash_argon2id : Argon2Params → (ℕ → ℕ) → Bytes → Bytes
  unfolding csprng c_str
  hash_argon2id params device password =
      elim (k.hash_encoded params password (csprng params.salt_len device)) [
        | none ↦ []
        | some encoded ↦ c_str encoded
      ]

  -- `verify`
  unfoldable pub verify_password : Bytes → Bytes → Bool
  unfolding c_str
  verify_password password encoded =
      let tried = λ (v : Variant). k.accepts v (c_str encoded) password in
      if is_empty encoded then false else tried argon2id || (tried argon2i || tried argon2d)

  -- The part of `hashLoop` between the two locks.
  unfoldable pub run_hash : (ℕ → ℕ) → HashJob → HashJob
  unfolding hash_argon2id verify_password
  run_hash device job = elim job.op [
    | hash ↦ record job { result = hash_argon2id default_params device job.password }
    | verify ↦ record job { verified = verify_password job.password job.encoded }
  ]

  c_str_twice : (s : Bytes) → c_str (c_str s) ≡ c_str s
  unfolding c_str
  c_str_twice [] = refl
  c_str_twice (c ∷ rest) = elim (Bool-cases (c == 0)) [
    | inl e ↦ rw (c_str, e) refl
    | inr e ↦ rw (c_str, e, e) (ap (λ s. c ∷ s) (c_str_twice rest))
  ]

  pub hash_argon2id-verify :
      (params : Argon2Params) (device : ℕ → ℕ) (password e : Bytes)
      → ((params : Argon2Params) (password salt encoded : Bytes)
          → k.hash_encoded params password salt ≡ some encoded
          → k.accepts argon2id (c_str encoded) password ≡ true)
      → e ≡ hash_argon2id params device password
      → e ≢ []
      → verify_password password e ≡ true
  unfolding verify_password hash_argon2id
  hash_argon2id-verify params device password e law is made =
      let salt = csprng params.salt_len device in
      elim (Option-cases (k.hash_encoded params password salt)) [
        | inl failed ↦ absurd (made (is ∙ rw (hash_argon2id, failed) refl))
        | inr (encoded, ok) ↦
            let text : e ≡ c_str encoded = is ∙ rw (hash_argon2id, ok) refl in
            let read : c_str e ≡ c_str encoded = ap c_str text ∙ c_str_twice encoded in
            let accepted = law params password salt encoded ok in
            rw (is_empty-false e made, read, accepted) refl
      ]

  -- A hash that the pool made for a password, which is not the empty text of a failure, is verified
  -- by the pool for that password, whatever the salt, and whatever else the two jobs hold, if the
  -- Argon2 library accepts what it encoded.
  pub run_hash-verify :
      (device device' : ℕ → ℕ) (job check : HashJob)
      → ((params : Argon2Params) (password salt encoded : Bytes)
          → k.hash_encoded params password salt ≡ some encoded
          → k.accepts argon2id (c_str encoded) password ≡ true)
      → job.op ≡ hash
      → check.op ≡ verify
      → check.password ≡ job.password
      → check.encoded ≡ (run_hash device job).result
      → check.encoded ≢ []
      → (run_hash device' check).verified ≡ true
  unfolding run_hash
  run_hash-verify device device' job check law h v same encoded made =
      let text : check.encoded ≡ hash_argon2id default_params device job.password =
        encoded ∙ rw (run_hash, h) refl in
      rw (run_hash, v)
        (hash_argon2id-verify default_params device check.password check.encoded law (rw same text)
          made)
