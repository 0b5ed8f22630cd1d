-- ===== src/Connection/Tests.antt =====
-- A client library that answers every query alike, and the theorems of src/Connection.cpp at it.
use omp_my_sql.Prelude.{
  ◌↔◌, ℕ, true, false, not, ◌||◌, List, [], ◌∷◌, codes, is_empty, none, some, ◌≡◌, refl,
}
use omp_my_sql.Prelude.Int.{pos, negsuc}
use omp_my_sql.Result.{QueryResult, IsWellFormed}
use omp_my_sql.Connection.Options.{ConnectionOptions, default_options, required}
use omp_my_sql.Connection.Open.{Build, client_options}
use omp_my_sql.Connection.Open.Policy.{
  tls_policy, plaintext, is_required, Setting, client_options-tls_policy,
}
use omp_my_sql.Connection.Client.{
  Reply, Replies, ends, goes_on, Driver, Connection, is_open, query_buffered,
}
use omp_my_sql.Connection.Client.Shows.{Pairwise, Shows}
use omp_my_sql.Connection.Client.Buffered.{
  replies, last_status, IsError, query_buffered-IsWellFormed, query_buffered-executed,
}

abbrev mariadb : Build
mariadb = record { has_ssl_crl = false; has_ssl_mode = false; has_compression_algorithms = false }

abbrev unverified : ConnectionOptions
unverified = record default_options { ssl_mode = required }

client_options-tls_policy_example :
    tls_policy plaintext (client_options mariadb unverified) ≡ record {
      encrypted = true;
      verified =
          not (is_empty unverified.ssl_ca)
          || not (is_empty unverified.ssl_ca_path)
          || not (is_required unverified.ssl_mode);
    }
client_options-tls_policy_example = client_options-tls_policy mariadb unverified

abbrev settings : List Setting
settings =
    record { type = 15; int_value = pos 0; string_value = codes "TLSv1.2" }
    ∷ record { type = 1; int_value = pos 1; string_value = [] }
    ∷ []

abbrev one_row : Reply
one_row = record {
  stored = some (record {
    fields = (some (codes "id"), pos 3) ∷ (none, pos 253) ∷ [];
    rows = (λ i. none) ∷ [];
  });
  affected_rows = 1;
  insert_id = 0;
  warning_count = 0;
}

abbrev two_replies : Replies
two_replies = goes_on one_row (ends one_row (negsuc 0))

abbrev client : Driver
client = record {
  Handle = ℕ;
  init = some 0;
  set_option = λ option h. h;
  connect = λ o database flags h. (h, true);
  query = λ sql h. (h, some two_replies);
  escape_string = λ h s. s;
  errno = λ h. 0;
  error = λ h. none;
  get_ssl_cipher = λ h. some (codes "TLS_AES_256_GCM_SHA384");
  set_charset = λ name h. (h, true);
  charset_name = λ h. some (codes "utf8mb4");
  stat = λ h. some (codes "Uptime: 1");
}

abbrev up : Connection client
up = record { mysql = some 0; connected = true }

abbrev no_result : QueryResult
no_result = record { sets = []; exec_time_micros = 0; query_string = [] }

query_buffered-IsWellFormed_example :
    IsWellFormed (query_buffered client (codes "SELECT 1; SELECT 2") up no_result).1
query_buffered-IsWellFormed_example =
    query_buffered-IsWellFormed client (codes "SELECT 1; SELECT 2") up no_result

query_buffered-executed_example :
    let (after, result, ok) = query_buffered client (codes "SELECT 1; SELECT 2") up no_result in
    (result.query_string ≡ codes "SELECT 1; SELECT 2")
    × Pairwise Shows (replies two_replies) result.sets
    × ((ok ≡ false) ↔ IsError (last_status two_replies))
unfolding is_open
query_buffered-executed_example =
    query_buffered-executed client (codes "SELECT 1; SELECT 2") up no_result 0 two_replies refl refl
      refl
