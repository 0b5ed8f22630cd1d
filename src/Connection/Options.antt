-- ===== src/Connection/Options.antt =====
-- `SSLMode` and `ConnectionOptions` of src/Connection.hpp, and the natives of src/natives.cpp that
-- set an option.
use omp_my_sql.Prelude.{
  ℕ, ◌-◌, ◌%◌, ◌^◌, Bool, true, false, not, ◌&&◌, [], Bytes, codes, ◌==◌, leb, if◌then◌else◌,
}
use omp_my_sql.Prelude.Int.{ℤ, pos, negsuc}

pub data SslMode : Type 0 where
  required verify_ca verify_identity : SslMode

pub record ConnectionOptions : Type 0 where
  pub host : Bytes
  pub user : Bytes
  pub password : Bytes
  pub database : Bytes
  pub port : ℕ
  pub connect_timeout : ℕ
  pub read_timeout : ℕ
  pub write_timeout : ℕ
  pub auto_reconnect : Bool
  pub multi_statements : Bool
  pub ssl_mode : SslMode
  pub ssl_ca : Bytes
  pub ssl_ca_path : Bytes
  pub ssl_cert : Bytes
  pub ssl_key : Bytes
  pub ssl_crl : Bytes
  pub ssl_crl_path : Bytes
  pub ssl_cipher : Bytes
  pub tls_version : Bytes
  pub compression : Bytes
  pub zstd_level : ℤ

abbrev pub default_options : ConnectionOptions
default_options = record {
  host = codes "127.0.0.1";
  user = [];
  password = [];
  database = [];
  port = 3306;
  connect_timeout = 0;
  read_timeout = 0;
  write_timeout = 0;
  auto_reconnect = false;
  multi_statements = false;
  ssl_mode = verify_ca;
  ssl_ca = [];
  ssl_ca_path = [];
  ssl_cert = [];
  ssl_key = [];
  ssl_crl = [];
  ssl_crl_path = [];
  ssl_cipher = [];
  tls_version = codes "TLSv1.3,TLSv1.2";
  compression = [];
  zstd_level = pos 3;
}

-- `static_cast<unsigned int>` of an `int`.
abbrev pub to_unsigned : ℤ → ℕ
to_unsigned (pos n) = n % 2 ^ 32
to_unsigned (negsuc n) = (2 ^ 32 - 1) - n % 2 ^ 32

-- `value != 0`
abbrev is_set : ℤ → Bool
is_set (pos n) = not (n == 0)
is_set (negsuc n) = true

-- The string options among the ordinals of `MySQLOptionType`: `OPT_SSL_CA` to `OPT_COMPRESSION`.
unfoldable pub option_is_string : ℕ → Bool
option_is_string type = leb 8 type && leb type 16

-- The clamp of `OPT_SSL_MODE`.
unfoldable pub with_ssl_mode : ConnectionOptions → ℤ → ConnectionOptions
with_ssl_mode o (negsuc n) = o
with_ssl_mode o (pos n) =
    if n == 0
    then record o { ssl_mode = required }
    else if n == 1
    then record o { ssl_mode = verify_ca }
    else if n == 2
    then record o { ssl_mode = verify_identity }
    else o

-- `ApplyIntOption`
unfoldable pub apply_int_option : ConnectionOptions → ℕ → ℤ → ConnectionOptions
unfolding with_ssl_mode
apply_int_option o type value =
    if type == 0
    then record o { auto_reconnect = is_set value }
    else if type == 1
    then record o { multi_statements = is_set value }
    else if type == 3
    then record o { port = to_unsigned value }
    else if type == 4
    then record o { connect_timeout = to_unsigned value }
    else if type == 5
    then record o { read_timeout = to_unsigned value }
    else if type == 6
    then record o { write_timeout = to_unsigned value }
    else if type == 7
    then with_ssl_mode o value
    else if type == 17
    then record o { zstd_level = value }
    else o

-- `ApplyStringOption`
unfoldable pub apply_string_option : ConnectionOptions → ℕ → Bytes → ConnectionOptions
apply_string_option o type value =
    if type == 8
    then record o { ssl_ca = value }
    else if type == 9
    then record o { ssl_ca_path = value }
    else if type == 10
    then record o { ssl_cert = value }
    else if type == 11
    then record o { ssl_key = value }
    else if type == 12
    then record o { ssl_crl = value }
    else if type == 13
    then record o { ssl_crl_path = value }
    else if type == 14
    then record o { ssl_cipher = value }
    else if type == 15
    then record o { tls_version = value }
    else if type == 16
    then record o { compression = value }
    else o
