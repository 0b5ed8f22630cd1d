-- ===== src/Natives/Status.antt =====
-- The natives of src/natives.cpp on one connection: errors, escaping, character set, server status
-- and TLS, and the version natives. `conn_at` gives the connection object at an address; a native
-- that changes it gives the address with the new object.
use omp_my_sql.Prelude.{
  ℕ, Bool, true, false, not, [], Bytes, codes, length, eq_bytes, Option, none, some,
}
use omp_my_sql.Connection.Client.{Driver, Connection, escape, last_errno, last_error, ssl_cipher}
use omp_my_sql.Connection.Session.{set_charset, get_charset, stat, ssl_enabled}
use omp_my_sql.Component.{Component, get_connection}

-- `kVersion` and `kLatestVersion`
abbrev pub version : Bytes
version = codes "1.1.0"

abbrev pub latest_version : Bytes
latest_version = codes "1.1.0"

-- `updateAvailable`
unfoldable pub update_available : Bool
update_available = not (eq_bytes version latest_version)

module _ (d : Driver) (conn_at : ℕ → Connection d) where
  -- A changed object, or none.
  abbrev pub Changed : Type 0
  Changed = Option (ℕ × Connection d)

  -- `mysql_errno`; the code is cast to `int`, which keeps the codes that there are.
  unfoldable pub mysql_errno : Component → ℕ → ℕ
  unfolding get_connection last_errno
  mysql_errno c handle = elim (get_connection c handle) [
    | none ↦ 0
    | some p ↦ last_errno d (conn_at p)
  ]

  -- `mysql_error`
  unfoldable pub mysql_error : Component → ℕ → Bytes
  unfolding get_connection last_error
  mysql_error c handle = elim (get_connection c handle) [
    | none ↦ codes "invalid connection handle"
    | some p ↦ last_error d (conn_at p)
  ]

  -- `mysql_escape`: without a connection the text is passed on as it is.
  unfoldable pub mysql_escape : Component → Bytes → ℕ → Bytes × ℕ
  unfolding get_connection escape
  mysql_escape c source handle =
      let escaped : Bytes = elim (get_connection c handle) [
        | none ↦ source
        | some p ↦ escape d (conn_at p) source
      ] in
      (escaped, length escaped)

  -- `mysql_set_charset`
  unfoldable pub mysql_set_charset : Component → Bytes → ℕ → Changed × Bool
  unfolding get_connection set_charset
  mysql_set_charset c charset handle = elim (get_connection c handle) [
    | none ↦ (none, false)
    | some p ↦ let (conn, ok) = set_charset d charset (conn_at p) in (some (p, conn), ok)
  ]

  -- `mysql_get_charset`
  unfoldable pub mysql_get_charset : Component → ℕ → Bytes × Bool
  unfolding get_connection get_charset
  mysql_get_charset c handle = elim (get_connection c handle) [
    | none ↦ ([], false)
    | some p ↦ (get_charset d (conn_at p), true)
  ]

  -- `mysql_server_status`
  unfoldable pub mysql_server_status : Component → ℕ → Bytes × Bool
  unfolding get_connection stat
  mysql_server_status c handle = elim (get_connection c handle) [
    | none ↦ ([], false)
    | some p ↦ (stat d (conn_at p), true)
  ]

  -- `mysql_get_tls_cipher`
  unfoldable pub mysql_get_tls_cipher : Component → ℕ → Changed × Bytes
  unfolding get_connection ssl_cipher
  mysql_get_tls_cipher c handle = elim (get_connection c handle) [
    | none ↦ (none, [])
    | some p ↦ let (conn, cipher) = ssl_cipher d (conn_at p) in (some (p, conn), cipher)
  ]

  -- `mysql_is_tls_enabled`
  unfoldable pub mysql_is_tls_enabled : Component → ℕ → Changed × Bool
  unfolding get_connection ssl_enabled
  mysql_is_tls_enabled c handle = elim (get_connection c handle) [
    | none ↦ (none, false)
    | some p ↦ let (conn, ok) = ssl_enabled d (conn_at p) in (some (p, conn), ok)
  ]
