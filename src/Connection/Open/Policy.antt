-- ===== src/Connection/Open/Policy.antt =====
-- What the client options that `Connection::open` (src/Connection.cpp) sets ask the client library
-- for: encryption, and verification of the server's certificate.
use omp_my_sql.Prelude.{
  All, ◌≢◌, codes, ℕ, Bool, true, false, not, ◌||◌, List, [], ◌∷◌, ◌++◌, Bytes, is_empty,
  if◌then◌else◌, ◌≡◌, refl, ◌∙◌, arith, ap, ◌==◌,
}
use omp_my_sql.Prelude.Int.{ℤ}
use omp_my_sql.Connection.Options.{
  default_options, option_is_string, apply_string_option, apply_int_option, SslMode, required,
  verify_ca, verify_identity, ConnectionOptions,
}
use omp_my_sql.Connection.Open.{
  ClientOption, opt_connect_timeout, opt_read_timeout, opt_write_timeout, opt_tls_version,
  opt_ssl_key, opt_ssl_cert, opt_ssl_ca, opt_ssl_capath, opt_ssl_cipher, opt_ssl_crl,
  opt_ssl_crlpath, set_charset_name, opt_ssl_mode, opt_ssl_enforce, opt_ssl_verify_server_cert,
  Build, effective_ssl_mode, client_options, ssl_options, compression_options,
}

-- The last setting of an option counts.
pub record TlsPolicy : Type 0 where
  pub encrypted : Bool
  pub verified : Bool

abbrev set_option : ClientOption → TlsPolicy → TlsPolicy
set_option (opt_ssl_mode required) p = record { encrypted = true; verified = false }
set_option (opt_ssl_mode verify_ca) p = record { encrypted = true; verified = true }
set_option (opt_ssl_mode verify_identity) p = record { encrypted = true; verified = true }
set_option (opt_ssl_enforce on) p = record p { encrypted = on }
set_option (opt_ssl_verify_server_cert on) p = record p { verified = on }
set_option _ p = p

unfoldable pub tls_policy : TlsPolicy → List ClientOption → TlsPolicy
tls_policy p [] = p
tls_policy p (option ∷ options) = tls_policy (set_option option p) options

tls_policy-append :
    (p : TlsPolicy) (xs ys : List ClientOption)
    → tls_policy p (xs ++ ys) ≡ tls_policy (tls_policy p xs) ys
unfolding tls_policy
tls_policy-append p [] ys = refl
tls_policy-append p (x ∷ xs) ys = tls_policy-append (set_option x p) xs ys

-- A client asks for no encryption until it is told to.
abbrev pub plaintext : TlsPolicy
plaintext = record { encrypted = false; verified = false }

abbrev pub is_required : SslMode → Bool
is_required required = true
is_required _ = false

abbrev optional : Bool → ClientOption → List ClientOption
optional absent option = if absent then [] else option ∷ []

skip :
    (p : TlsPolicy) (absent : Bool) (option : ClientOption) (rest : List ClientOption)
    → set_option option p ≡ p
    → tls_policy p (optional absent option ++ rest) ≡ tls_policy p rest
unfolding tls_policy
skip p true option rest e = refl
skip p false option rest e = ap (λ q. tls_policy q rest) e

skip_crl :
    (p : TlsPolicy) (has a b : Bool) (x y : Bytes) (rest : List ClientOption)
    → tls_policy p
        ((if has then optional a (opt_ssl_crl x) ++ optional b (opt_ssl_crlpath y) else []) ++ rest)
      ≡ tls_policy p rest
unfolding tls_policy
skip_crl p false a b x y rest = refl
skip_crl p true true true x y rest = refl
skip_crl p true true false x y rest = refl
skip_crl p true false true x y rest = refl
skip_crl p true false false x y rest = refl

compression_neutral :
    (p : TlsPolicy) (build : Build) (o : ConnectionOptions)
    → tls_policy p (compression_options build o) ≡ p
unfolding tls_policy compression_options
compression_neutral p build o = ground arith

ssl_options-tls_policy :
    (p : TlsPolicy) (build : Build) (o : ConnectionOptions)
    → p ≡ plaintext
    → tls_policy p (ssl_options build o) ≡ record {
      encrypted = true;
      verified =
          not (is_empty o.ssl_ca) || not (is_empty o.ssl_ca_path) || not (is_required o.ssl_mode);
    }
unfolding tls_policy ssl_options effective_ssl_mode
ssl_options-tls_policy p build o e = ground arith

-- Whatever the options and the client library, `open` asks for encryption. It asks for the
-- verification of the certificate exactly if a CA is given or the SSL mode is above REQUIRED.
pub client_options-tls_policy :
    (build : Build) (o : ConnectionOptions)
    → tls_policy plaintext (client_options build o) ≡ record {
      encrypted = true;
      verified =
          not (is_empty o.ssl_ca) || not (is_empty o.ssl_ca_path) || not (is_required o.ssl_mode);
    }
unfolding client_options
client_options-tls_policy build o =
    skip plaintext (o.connect_timeout == 0) (opt_connect_timeout o.connect_timeout) _ refl
    ∙ skip plaintext (o.read_timeout == 0) (opt_read_timeout o.read_timeout) _ refl
    ∙ skip plaintext (o.write_timeout == 0) (opt_write_timeout o.write_timeout) _ refl
    ∙ skip plaintext false (set_charset_name (codes "utf8mb4")) _ refl
    ∙ skip plaintext (is_empty o.tls_version) (opt_tls_version o.tls_version) _ refl
    ∙ skip plaintext (is_empty o.ssl_key) (opt_ssl_key o.ssl_key) _ refl
    ∙ skip plaintext (is_empty o.ssl_cert) (opt_ssl_cert o.ssl_cert) _ refl
    ∙ skip plaintext (is_empty o.ssl_ca) (opt_ssl_ca o.ssl_ca) _ refl
    ∙ skip plaintext (is_empty o.ssl_ca_path) (opt_ssl_capath o.ssl_ca_path) _ refl
    ∙ skip plaintext (is_empty o.ssl_cipher) (opt_ssl_cipher o.ssl_cipher) _ refl
    ∙ skip_crl plaintext build.has_ssl_crl (is_empty o.ssl_crl) (is_empty o.ssl_crl_path) o.ssl_crl
        o.ssl_crl_path _
    ∙ tls_policy-append plaintext (ssl_options build o) (compression_options build o)
    ∙ compression_neutral _ build o
    ∙ ssl_options-tls_policy plaintext build o refl

-- One call of `mysql_config_set`: an option type with the value of its kind.
pub record Setting : Type 0 where
  pub type : ℕ
  pub int_value : ℤ
  pub string_value : Bytes

-- The dispatch of `mysql_config_set` on the option type.
unfoldable pub configure : ConnectionOptions → Setting → ConnectionOptions
configure o s =
    if option_is_string s.type
    then apply_string_option o s.type s.string_value
    else apply_int_option o s.type s.int_value

unfoldable pub configure_all : ConnectionOptions → List Setting → ConnectionOptions
unfolding configure
configure_all o [] = o
configure_all o (s ∷ settings) = configure_all (configure o s) settings

pub configure-ssl_mode :
    (o : ConnectionOptions) (s : Setting) → s.type ≢ 7 → (configure o s).ssl_mode ≡ o.ssl_mode
unfolding configure option_is_string apply_string_option apply_int_option
configure-ssl_mode o s h = ground arith

configure_all-ssl_mode :
    (o : ConnectionOptions) (settings : List Setting)
    → All (λ s. s.type ≢ 7) settings
    → (configure_all o settings).ssl_mode ≡ o.ssl_mode
unfolding configure_all
configure_all-ssl_mode o [] h = refl
configure_all-ssl_mode o (s ∷ settings) h =
    configure_all-ssl_mode (configure o s) settings h.1 ∙ configure-ssl_mode o s h.0

-- An options set whose SSL mode no setting touched makes `open` ask for encryption and for the
-- verification of the certificate, whatever else was set.
pub configure_all-tls_policy :
    (build : Build) (settings : List Setting)
    → All (λ s. s.type ≢ 7) settings
    → tls_policy plaintext (client_options build (configure_all default_options settings))
      ≡ record { encrypted = true; verified = true }
configure_all-tls_policy build settings h =
    let o = configure_all default_options settings in
    let m = configure_all-ssl_mode default_options settings h in
    client_options-tls_policy build o ∙ ground (arith, m)
