-- ===== src/Natives/Obfuscation.antt =====
-- `CfgKeySeed`, `CfgXor`, `CfgDecodeIfNeeded` and `mysql_config_obfuscate` of src/natives.cpp. The
-- value of `OMP_CFG_KEY`, the content of the files and whether they open are parameters.
pub mod Xor
use Prim.Native.Nat.{◌*◌, ◌/◌, ◌<◌, bit_xor}
use omp_my_sql.Prelude.{
  ℕ, ◌%◌, ◌^◌, Bool, true, false, List, [], ◌∷◌, ◌++◌, Bytes, codes, ◌==◌, Option, none, some,
  if◌then◌else◌, ◌≡◌, refl, ap, arith, ==_refl, Option-cases, inl, inr,
}
use omp_my_sql.Natives.Obfuscation.Xor.{bit_xor_twice}

abbrev pub cfg_magic : Bytes
cfg_magic = codes "OMPMENC1"

-- The loop of `CfgKeySeed`: FNV-1a.
unfoldable fnv : ℕ → Bytes → ℕ
fnv h [] = h
fnv h (c ∷ rest) = fnv (bit_xor h c * 16777619 % 2 ^ 32) rest

-- `CfgKeySeed`; the flag says whether the seed comes from the environment.
unfoldable pub cfg_key_seed : Option Bytes → ℕ × Bool
unfolding fnv
cfg_key_seed none = (0x6F6D704D, false)
cfg_key_seed (some []) = (0x6F6D704D, false)
cfg_key_seed (some (c ∷ rest)) =
    let h = fnv 2166136261 (c ∷ rest) in (if h == 0 then 1 else h, true)

-- One step of xorshift32.
unfoldable pub xorshift : ℕ → ℕ
xorshift s =
    let s₁ = bit_xor s (s * 2 ^ 13 % 2 ^ 32) in
    let s₂ = bit_xor s₁ (s₁ / 2 ^ 17) in bit_xor s₂ (s₂ * 2 ^ 5 % 2 ^ 32)

-- The loop of `CfgXor`, from a state of the key stream.
unfoldable pub xor_loop : ℕ → Bytes → Bytes
unfolding xorshift
xor_loop s [] = []
xor_loop s (c ∷ rest) = let next = xorshift s in bit_xor c (next % 2 ^ 8) ∷ xor_loop next rest

-- `CfgXor`
unfoldable pub cfg_xor : Option Bytes → Bytes → Bytes
unfolding xor_loop cfg_key_seed
cfg_xor key body = xor_loop (cfg_key_seed key).0 body

-- What follows a prefix, if the text has it.
unfoldable pub strip_prefix : Bytes → Bytes → Option Bytes
strip_prefix [] s = some s
strip_prefix (p ∷ prefix) [] = none
strip_prefix (p ∷ prefix) (c ∷ s) =
    let rest = strip_prefix prefix s in if c == p then rest else none

-- `CfgDecodeIfNeeded`
unfoldable pub cfg_decode_if_needed : Option Bytes → Bytes → Bytes
unfolding strip_prefix cfg_xor
cfg_decode_if_needed key raw = elim (strip_prefix cfg_magic raw) [
  | none ↦ raw
  | some body ↦ cfg_xor key body
]

-- `mysql_config_obfuscate`: the content that it writes, or `none` where it returns false before it
-- writes. The input is `none` if it cannot be opened.
unfoldable pub mysql_config_obfuscate : Option Bytes → Option Bytes → Bool → Option Bytes
unfolding strip_prefix cfg_xor
mysql_config_obfuscate key none writable = none
mysql_config_obfuscate key (some raw) writable = elim (strip_prefix cfg_magic raw) [
  | some body ↦ none
  | none ↦ if writable then some (cfg_magic ++ cfg_xor key raw) else none
]

-- The same key stream twice.
xor_loop-xor_loop : (s : ℕ) (body : Bytes) → xor_loop s (xor_loop s body) ≡ body
unfolding xor_loop
xor_loop-xor_loop s [] = refl
xor_loop-xor_loop s (c ∷ body) =
    let next = xorshift s in rw (bit_xor_twice c (next % 2 ^ 8), xor_loop-xor_loop next body) refl

cfg_xor_twice : (key : Option Bytes) (body : Bytes) → cfg_xor key (cfg_xor key body) ≡ body
unfolding cfg_xor
cfg_xor_twice key body = xor_loop-xor_loop (cfg_key_seed key).0 body

strip_prefix-append : (a s : Bytes) → strip_prefix a (a ++ s) ≡ some s
unfolding strip_prefix
strip_prefix-append [] s = refl
strip_prefix-append (c ∷ a) s = rw (==_refl c) (strip_prefix-append a s)

-- What is written is the magic and the encoded text, and only for a plain text.
obfuscated :
    (key : Option Bytes) (raw blob : Bytes) (writable : Bool)
    → mysql_config_obfuscate key (some raw) writable ≡ some blob
    → (strip_prefix cfg_magic raw ≡ none) × (blob ≡ cfg_magic ++ cfg_xor key raw)
unfolding mysql_config_obfuscate
obfuscated key raw blob writable e = ground arith

-- What is written for a text decodes to that text, under the same key; it is not obfuscated
-- a second time; and the text itself, which is plain, is read as it is.
pub mysql_config_obfuscate-decode :
    (key : Option Bytes) (raw blob : Bytes) (writable : Bool)
    → mysql_config_obfuscate key (some raw) writable ≡ some blob
    → (cfg_decode_if_needed key blob ≡ raw)
      × (mysql_config_obfuscate key (some blob) true ≡ none)
      × (cfg_decode_if_needed key raw ≡ raw)
unfolding mysql_config_obfuscate cfg_decode_if_needed
mysql_config_obfuscate-decode key raw blob writable e =
    let (plain, written) = obfuscated key raw blob writable e in
    let stripped : strip_prefix cfg_magic blob ≡ some (cfg_xor key raw) =
      rw written (strip_prefix-append cfg_magic (cfg_xor key raw)) in
    (rw (stripped) (cfg_xor_twice key raw), rw (stripped) refl, rw (plain) refl)
