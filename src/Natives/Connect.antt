-- ===== src/Natives/Connect.antt =====
-- `DoConnect`, `mysql_connect` and `mysql_close` of src/natives.cpp. The address of the new connection
-- object is a parameter.
use omp_my_sql.Prelude.{
  ℕ, Bool, true, false, not, Bytes, ◌==◌, is_empty, Option, none, some, if◌then◌else◌, ◌≡◌, ◌⊎◌,
  refl, arith, Bool-cases, codes, Option-cases, inl, inr,
}
use omp_my_sql.Prelude.Map.{lookup, lookup-put, lookup-emplace, lookup_fresh, KeysBelow}
use omp_my_sql.Connection.Options.{ConnectionOptions, default_options}
use omp_my_sql.Connection.Open.{Build}
use omp_my_sql.Connection.Client.{Driver, Connection, open_connection, ssl_cipher}
use omp_my_sql.Component.{
  Component, add_connection, get_connection, multi_statements_allowed, remove_connection,
}
use omp_my_sql.Component.Registry.{get_options}
use omp_my_sql.Query.{QueryJob}
use omp_my_sql.Natives.Environment.{expand_env}

-- A new connection takes a handle that was free.
add_connection-registered :
    (c : Component) (address : ℕ) (multi : Bool)
    → KeysBelow c.next_handle c.connections
    → let (c', handle) = add_connection c (some address) multi in
      (get_connection c handle ≡ none)
      × (get_connection c' handle ≡ some address)
      × (multi_statements_allowed c' handle ≡ multi)
unfolding add_connection get_connection multi_statements_allowed
add_connection-registered c address multi below =
    let n = c.next_handle in
    let free : lookup n c.connections ≡ none = lookup_fresh n n c.connections below (omega arith) in
    let taken = lookup-emplace n n address c.connections free in
    let allowed = lookup-put n n multi c.multi_statement_allowed in
    (free, ground (arith, taken), ground (arith, allowed))

module _ (d : Driver) (build : Build) where
  ssl_cipher-unknown :
      (conn : Connection d)
      → ((h : d.Handle) → d.get_ssl_cipher h ≡ none)
      → ((h : d.Handle) → (d.query (codes "SHOW SESSION STATUS LIKE 'Ssl_cipher") h).1 ≡ none)
      → is_empty (ssl_cipher d conn).1 ≡ true
  unfolding ssl_cipher
  ssl_cipher-unknown conn unknown refused = elim (Option-cases conn.mysql) [
    | inl closed ↦ rw closed refl
    | inr (h, live) ↦ rw (live, unknown h, refused h) refl
  ]

  -- `DoConnect`; the connection object of a refused connection is destroyed.
  unfoldable pub do_connect : Component → ℕ → ConnectionOptions → Component × ℕ × Connection d
  do_connect c address o =
      let (conn, ok) = open_connection d build o in
      let (conn', cipher) = ssl_cipher d conn in
      let (c', handle) = add_connection c (some address) o.multi_statements in
      if not ok
      then (c, 0, conn)
      else if is_empty cipher
      then (c, 0, conn')
      else (c', handle, conn')

  -- The options that `mysql_connect` starts from.
  unfoldable pub base_options : Component → ℕ → ConnectionOptions
  unfolding get_options
  base_options c options =
      let stored : ConnectionOptions = elim (get_options c options) [
        | none ↦ default_options
        | some o ↦ o
      ] in
      if options == 0 then default_options else stored

  -- `mysql_connect`
  unfoldable pub mysql_connect :
      (Bytes → Option Bytes)
      → Component
      → ℕ
      → Bytes
      → Bytes
      → Bytes
      → Bytes
      → ℕ
      → Component × ℕ × Connection d
  unfolding do_connect base_options expand_env
  mysql_connect env c address host user password database options =
      do_connect c address (record (base_options c options) {
        host = expand_env env host;
        user = expand_env env user;
        password = expand_env env password;
        database = expand_env env database;
      })

  -- The component whose connections are numbered below its next handle either is as it was, and the
  -- handle is 0; or the client library opened the connection and its TLS cipher is known, and the
  -- handle, which had no connection before, now stands for it, and allows multi-statements exactly if
  -- they were negotiated.
  pub do_connect-registered :
      (c : Component) (address : ℕ) (o : ConnectionOptions)
      → KeysBelow c.next_handle c.connections
      → let (c', handle, conn) = do_connect c address o in
        let (opened, ok) = open_connection d build o in
        ((handle ≡ 0) × (c' ≡ c))
        ⊎ ((ok ≡ true)
            × (is_empty (ssl_cipher d opened).1 ≡ false)
            × (get_connection c handle ≡ none)
            × (get_connection c' handle ≡ some address)
            × (multi_statements_allowed c' handle ≡ o.multi_statements))
  unfolding do_connect
  do_connect-registered c address o below =
      let (opened, ok) = open_connection d build o in
      elim (Bool-cases ok) [
        | inl opens ↦ elim (Bool-cases (is_empty (ssl_cipher d opened).1)) [
          | inl plain ↦ inl (cc, cc)
          | inr encrypted ↦
              let (free, taken, allowed) =
                add_connection-registered c address o.multi_statements below in
              inr (opens, encrypted, cc, cc, cc)
        ]
        | inr refused ↦ inl (cc, cc)
      ]

  -- Where the client library knows no cipher and the server refuses the query for it, whose string
  -- literal is not closed, no connection gets a handle, encrypted or not, and the component is as it
  -- was.
  pub do_connect-unknown_cipher :
      (c : Component) (address : ℕ) (o : ConnectionOptions)
      → ((h : d.Handle) → d.get_ssl_cipher h ≡ none)
      → ((h : d.Handle) → (d.query (codes "SHOW SESSION STATUS LIKE 'Ssl_cipher") h).1 ≡ none)
      → let (c', handle, conn) = do_connect c address o in (handle ≡ 0) × (c' ≡ c)
  unfolding do_connect ssl_cipher
  do_connect-unknown_cipher c address o unknown refused =
      let (conn, ok) = open_connection d build o in
      let empty : is_empty (ssl_cipher d conn).1 ≡ true = ssl_cipher-unknown conn unknown refused in
      elim (Bool-cases ok) [ inl opens ↦ (cc, cc) | inr failed ↦ (cc, cc) ]

-- `mysql_close`
unfoldable pub mysql_close : (QueryJob → QueryJob) → Component → ℕ → Component × Bool
mysql_close run c handle = remove_connection run c handle
