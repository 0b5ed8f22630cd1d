-- ===== src/Natives/Tests.antt =====
-- A format of `mysql_format` and a model operation (src/natives.cpp) with hostile values.
use omp_my_sql.Prelude.{
  ℕ, ◌⊎◌, Option, ◌++◌, is_empty, eq_bytes, ◌≢◌, none, true, false, ◌||◌, List, [], ◌∷◌, Bytes,
  codes, ◌==◌, some, if◌then◌else◌, ◌≡◌, refl, arith, Bool-cases, inl, inr,
}
use omp_my_sql.Prelude.Int.{pos, negsuc}
use omp_my_sql.Amx.{Amx}
use omp_my_sql.Sql.{is_multi_statement, count_placeholders}
use omp_my_sql.Sql.Fragment.{IsEscaped, done, plain, pair}
use omp_my_sql.Natives.Format.{format_loop}
use omp_my_sql.Natives.Format.Safe.{Piece, verbatim, quoted_value, identifier, number, format_of}
use omp_my_sql.Natives.Models.{model_job}
use omp_my_sql.Natives.Models.Injection.{format-single, model_job-single}
use omp_my_sql.Model.{Model, new_model, int, string, insert}
use omp_my_sql.Connection.Client.{Driver, Connection, escape}
use omp_my_sql.Connection.Options.{default_options}
use omp_my_sql.Connection.Client.{open_connection, ssl_cipher}
use omp_my_sql.Connection.Open.{Build}
use omp_my_sql.Natives.Config.{config_options, mysql_connect_config, mysql_connect_config-single}
use omp_my_sql.Natives.Obfuscation.{
  cfg_xor, cfg_decode_if_needed, mysql_config_obfuscate, mysql_config_obfuscate-decode,
}
use omp_my_sql.Natives.Connect.{do_connect, do_connect-unknown_cipher, do_connect-registered}
use omp_my_sql.Natives.Environment.{is_set, expand_env, expand_env-reference}
use omp_my_sql.Component.{
  new_component, get_connection, multi_statements_allowed, Component, ConnectionWorker,
  multi_statement, check_guards,
}

abbrev amx : Amx
amx = record {
  Memory = Bytes;
  address = λ mem p. some 0;
  cell_at = λ mem p. negsuc 4;
  set_cell = λ mem p v. mem;
  string_at = λ mem p. mem;
  set_string = λ mem p s n. s;
  float_text = λ c. codes "0.000000";
  float_cell = λ s. pos 0;
}

unfoldable escape_all : Bytes → Bytes
escape_all [] = []
escape_all (c ∷ rest) =
    let tail = escape_all rest in if c == b'\'' || c == b'\\' then b'\\' ∷ c ∷ tail else c ∷ tail

escape_all-IsEscaped : (v : Bytes) → IsEscaped (escape_all v)
unfolding escape_all
escape_all-IsEscaped [] = done
escape_all-IsEscaped (c ∷ rest) = elim (Bool-cases (c == b'\'' || c == b'\\')) [
  | inl e ↦ rw e (pair c refl (escape_all-IsEscaped rest))
  | inr e ↦ rw e (plain (ground arith) (ground arith) (escape_all-IsEscaped rest))
]

abbrev hostile : Bytes
hostile = codes "x'; DROP TABLE t; -- "

abbrev pieces : List Piece
pieces =
    verbatim (codes "SELECT ")
    ∷ identifier
    ∷ verbatim (codes " FROM t WHERE a = ")
    ∷ quoted_value
    ∷ verbatim (codes " AND b = ")
    ∷ number
    ∷ []

-- A client library whose escape is `escape_all`.
abbrev client : Driver
client = record {
  Handle = ℕ;
  init = some 0;
  set_option = λ option h. h;
  connect = λ o database flags h. (h, true);
  query = λ sql h. (h, none);
  escape_string = λ h s. escape_all s;
  errno = λ h. 0;
  error = λ h. none;
  get_ssl_cipher = λ h. some (codes "TLS_AES_256_GCM_SHA384");
  set_charset = λ name h. (h, true);
  charset_name = λ h. some (codes "utf8mb4");
  stat = λ h. some (codes "Uptime: 1");
}

abbrev up : Connection client
up = record { mysql = some 0; connected = true }

format-single_example :
    let out =
      format_loop amx
        (some (escape client up))
        hostile
        false
        (format_of pieces)
        (pos 1 ∷ pos 2 ∷ pos 3 ∷ []) in
    (is_multi_statement out ≡ false) × (count_placeholders out ≡ 0)
format-single_example =
    format-single client (λ x. up) amx hostile (λ h. escape_all-IsEscaped) up 0 pieces
      (pos 1 ∷ pos 2 ∷ pos 3 ∷ []) refl
      ((refl, refl), (tt, ((refl, refl), (tt, ((refl, refl), (tt, tt)))))) (omega arith)

abbrev players : Model
players = record (new_model 1 (codes "play`ers")) {
  key = codes "id";
  fields =
      record { column = codes "id"; type = int; addr = some 0; maxlen = pos 0 }
      ∷ record { column = codes "name"; type = string; addr = some 1; maxlen = pos 24 }
      ∷ [];
}

model_job-single_example :
    let job = model_job client (λ x. up) amx hostile 3 insert players 5 [] in
    (is_multi_statement job.sql ≡ false)
    × (count_placeholders job.sql ≡ 0)
    × ((c : Component) (w : ConnectionWorker) (now : ℕ)
        → (check_guards c job w now).1 ≢ multi_statement)
model_job-single_example =
    model_job-single client (λ x. up) amx hostile (λ h. escape_all-IsEscaped) (λ x. refl) 5 0 3
      insert players [] refl

abbrev environment : Bytes → Option Bytes
environment name = if eq_bytes name (codes "USER") then some (codes "${HOME}") else none

expand_env-reference_example :
    expand_env environment (codes "u=${USER};${NONE}")
    ≡ codes "u=" ++ (codes "${HOME}" ++ expand_env environment (codes ";${NONE}"))
unfolding eq_bytes
expand_env-reference_example =
    expand_env-reference environment (codes "u=") (codes "USER") (codes ";${NONE}")
      (codes "${HOME}") (refl, (refl, tt)) (refl, (refl, (refl, (refl, tt))))
      (is_set b'U' (codes "SER") (codes "${HOME}") refl)

abbrev build : Build
build = record { has_ssl_crl = true; has_ssl_mode = true; has_compression_algorithms = true }

do_connect-registered_example :
    let (c', handle, conn) = do_connect client build new_component 7 default_options in
    let (opened, ok) = open_connection client build default_options in
    ((handle ≡ 0) × (c' ≡ new_component))
    ⊎ ((ok ≡ true)
        × (is_empty (ssl_cipher client opened).1 ≡ false)
        × (get_connection new_component handle ≡ none)
        × (get_connection c' handle ≡ some 7)
        × (multi_statements_allowed c' handle ≡ false))
do_connect-registered_example =
    do_connect-registered client build new_component 7 default_options tt

mysql_config_obfuscate-decode_example :
    let blob : Bytes = codes "OMPMENC1" ++ cfg_xor (some (codes "secret")) (codes "user = root") in
    (cfg_decode_if_needed (some (codes "secret")) blob ≡ codes "user = root")
    × (mysql_config_obfuscate (some (codes "secret")) (some blob) true ≡ none)
    × (cfg_decode_if_needed (some (codes "secret")) (codes "user = root") ≡ codes "user = root")
unfolding mysql_config_obfuscate
mysql_config_obfuscate-decode_example =
    mysql_config_obfuscate-decode (some (codes "secret")) (codes "user = root")
      (codes "OMPMENC1" ++ cfg_xor (some (codes "secret")) (codes "user = root")) true refl

abbrev config_file : Bytes
config_file = codes "; the game server\nhost = db\nuser=${USER}\nmulti_statements = 1\nport = 3307"

config_options_test :
    config_options environment config_file
    ≡ record default_options { host = codes "db"; user = codes "${HOME}"; port = 3307 }
unfolding config_options eq_bytes expand_env
config_options_test = refl

mysql_connect_config-single_example :
    let (c', handle, conn) =
      mysql_connect_config client build environment new_component 7 (some config_file) in
    ((handle ≡ 0) × (c' ≡ new_component))
    ⊎ ((get_connection c' handle ≡ some 7) × (multi_statements_allowed c' handle ≡ false))
mysql_connect_config-single_example =
    mysql_connect_config-single client build environment new_component 7 (some config_file) tt

-- A client library that does not tell the cipher, on a server that refuses every query.
abbrev schannel : Driver
schannel = record client { get_ssl_cipher = λ h. none }

do_connect-unknown_cipher_example :
    let (c', handle, conn) = do_connect schannel build new_component 7 default_options in
    (handle ≡ 0) × (c' ≡ new_component)
do_connect-unknown_cipher_example =
    do_connect-unknown_cipher schannel build new_component 7 default_options (λ h. refl) (λ h. refl)
