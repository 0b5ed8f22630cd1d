-- ===== src/Connection/Open.antt =====
-- `Connection::open` and `effectiveSSLMode` of src/Connection.cpp: the client options that are set
-- before the connect, and the connect itself.
pub mod Policy
use omp_my_sql.Prelude.{
  ℕ, Bool, true, false, not, ◌||◌, List, [], ◌∷◌, ◌++◌, Bytes, codes, ◌==◌, is_empty, Option, none,
  some, if◌then◌else◌,
}
use omp_my_sql.Prelude.Int.{ℤ, pos, negsuc}
use omp_my_sql.Connection.Options.{SslMode, required, verify_ca, verify_identity, ConnectionOptions}

-- The options of `mysql_options` that `open` sets.
pub data ClientOption : Type 0 where
  opt_connect_timeout opt_read_timeout opt_write_timeout : ℕ → ClientOption
  set_charset_name opt_tls_version : Bytes → ClientOption
  opt_ssl_key opt_ssl_cert opt_ssl_ca opt_ssl_capath opt_ssl_cipher : Bytes → ClientOption
  opt_ssl_crl opt_ssl_crlpath : Bytes → ClientOption
  opt_ssl_mode : SslMode → ClientOption
  opt_ssl_enforce opt_ssl_verify_server_cert : Bool → ClientOption
  opt_compression_algorithms : Bytes → ClientOption
  opt_zstd_compression_level : ℤ → ClientOption

-- Which of the options that the preprocessor asks for the client library defines.
pub record Build : Type 0 where
  pub has_ssl_crl : Bool
  pub has_ssl_mode : Bool
  pub has_compression_algorithms : Bool

-- `Connection::effectiveSSLMode`
unfoldable pub effective_ssl_mode : ConnectionOptions → SslMode
effective_ssl_mode o =
    if not (is_empty o.ssl_ca) || not (is_empty o.ssl_ca_path)
    then elim o.ssl_mode [ verify_identity ↦ verify_identity | _ ↦ verify_ca ]
    else o.ssl_mode

-- `if (o.x > 0)` and `if (!o.x.empty())`
abbrev timeout : (ℕ → ClientOption) → ℕ → List ClientOption
timeout option t = if t == 0 then [] else option t ∷ []

abbrev text : (Bytes → ClientOption) → Bytes → List ClientOption
text option s = if is_empty s then [] else option s ∷ []

-- `mode == VerifyCA || mode == VerifyIdentity`
abbrev verifies : SslMode → Bool
verifies required = false
verifies _ = true

unfoldable pub ssl_options : Build → ConnectionOptions → List ClientOption
unfolding effective_ssl_mode
ssl_options build o =
    let mode = effective_ssl_mode o in
    if build.has_ssl_mode
    then opt_ssl_mode mode ∷ []
    else opt_ssl_enforce true ∷ opt_ssl_verify_server_cert (verifies mode) ∷ []

unfoldable pub compression_options : Build → ConnectionOptions → List ClientOption
compression_options build o =
    if not (is_empty o.compression)
    then (if build.has_compression_algorithms
        then opt_compression_algorithms o.compression ∷ elim o.zstd_level [
          | pos n ↦ if n == 0 then [] else opt_zstd_compression_level o.zstd_level ∷ []
          | negsuc n ↦ []
        ]
        else [])
    else []

-- The calls of `mysql_options`, in their order.
unfoldable pub client_options : Build → ConnectionOptions → List ClientOption
unfolding ssl_options compression_options
client_options build o =
    timeout opt_connect_timeout o.connect_timeout
    ++ (timeout opt_read_timeout o.read_timeout
        ++ (timeout opt_write_timeout o.write_timeout
            ++ (set_charset_name (codes "utf8mb4")
                ∷ (text opt_tls_version o.tls_version
                    ++ (text opt_ssl_key o.ssl_key
                        ++ (text opt_ssl_cert o.ssl_cert
                            ++ (text opt_ssl_ca o.ssl_ca
                                ++ (text opt_ssl_capath o.ssl_ca_path
                                    ++ (text opt_ssl_cipher o.ssl_cipher
                                        ++ ((if build.has_ssl_crl
                                              then text opt_ssl_crl o.ssl_crl
                                                ++ text opt_ssl_crlpath o.ssl_crl_path
                                              else [])
                                            ++ (ssl_options build o
                                                ++ compression_options build o)))))))))))
