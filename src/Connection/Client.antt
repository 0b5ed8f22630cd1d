-- ===== src/Connection/Client.antt =====
-- `Connection` of src/Connection.cpp over the client library, which is a parameter: opening and
-- closing, escaping, and queries whose results are buffered.
pub mod Shows
pub mod Buffered
use omp_my_sql.Prelude.{
  ℕ, zero, suc, ◌+◌, Bool, true, false, List, [], ◌∷◌, ◌++◌, Bytes, codes, ◌==◌, length, is_empty,
  Option, none, some, if◌then◌else◌,
}
use omp_my_sql.Prelude.Int.{ℤ, pos, negsuc}
use omp_my_sql.Connection.Options.{ConnectionOptions}
use omp_my_sql.Connection.Open.{ClientOption, Build, client_options}
use omp_my_sql.Result.{ResultField, ResultValue, ResultSet, QueryResult}

-- What `mysql_store_result` returns: a name and a type for each field, and rows of cells, a null
-- pointer being `none`.
pub record Stored : Type 0 where
  pub fields : List (Option Bytes × ℤ)
  pub rows : List (ℕ → Option Bytes)

-- One statement of a query, executed.
pub record Reply : Type 0 where
  pub stored : Option Stored
  pub affected_rows : ℕ
  pub insert_id : ℕ
  pub warning_count : ℕ

-- The statements that a query executed: `mysql_next_result` returns 0 between two of them and a
-- status that is not 0 behind the last.
pub data Replies : Type 0 where
  ends : Reply → ℤ → Replies
  goes_on : Reply → Replies → Replies

pub record Driver : Type 1 where
  pub Handle : Type 0
  pub init : Option Handle
  pub set_option : ClientOption → Handle → Handle
  -- `mysql_real_connect`: the options, a database or none, and the flags
  pub connect : ConnectionOptions → Option Bytes → ℕ → Handle → Handle × Bool
  -- `mysql_real_query`, `none` if it fails
  pub query : Bytes → Handle → Handle × Option Replies
  pub escape_string : Handle → Bytes → Bytes
  pub errno : Handle → ℕ
  pub error : Handle → Option Bytes
  -- `mysql_get_ssl_cipher`
  pub get_ssl_cipher : Handle → Option Bytes
  -- `mysql_set_character_set`, `mysql_character_set_name` and `mysql_stat`
  pub set_charset : Bytes → Handle → Handle × Bool
  pub charset_name : Handle → Option Bytes
  pub stat : Handle → Option Bytes

-- `CLIENT_MULTI_STATEMENTS`
abbrev pub client_multi_statements : ℕ
client_multi_statements = 65536

module _ (d : Driver) where
  pub record Connection : Type 0 where
    pub mysql : Option d.Handle
    pub connected : Bool

  -- `close`
  abbrev pub closed : Connection
  closed = record { mysql = none; connected = false }

  -- `isOpen`
  unfoldable pub is_open : Connection → Bool
  is_open c = elim c.mysql [ none ↦ false | some h ↦ c.connected ]

  unfoldable pub set_options : List ClientOption → d.Handle → d.Handle
  set_options [] h = h
  set_options (option ∷ options) h = set_options options (d.set_option option h)

  abbrev database_of : ConnectionOptions → Option Bytes
  database_of o = if is_empty o.database then none else some o.database

  -- `Connection::open`; a handle that was there before is closed.
  unfoldable pub open_connection : Build → ConnectionOptions → Connection × Bool
  unfolding set_options
  open_connection build o = elim d.init [
    | none ↦ (closed, false)
    | some h ↦
        let flags = if o.multi_statements then client_multi_statements else 0 in
        let (h', ok) = d.connect o (database_of o) flags (set_options (client_options build o) h) in
        (record { mysql = some h'; connected = ok }, ok)
  ]

  -- `Connection::escape`
  unfoldable pub escape : Connection → Bytes → Bytes
  escape c s = elim c.mysql [ none ↦ s | some h ↦ d.escape_string h s ]

  -- `Connection::lastErrno`
  unfoldable pub last_errno : Connection → ℕ
  last_errno c = elim c.mysql [ none ↦ 0 | some h ↦ d.errno h ]

  -- `Connection::lastError`
  unfoldable pub last_error : Connection → Bytes
  last_error c = elim c.mysql [
    | none ↦ codes "no connection handle"
    | some h ↦ elim (d.error h) [ none ↦ [] | some e ↦ e ]
  ]

-- The loop over the fields of a result.
unfoldable pub read_fields : List (Option Bytes × ℤ) → List ResultField
read_fields [] = []
read_fields ((name, type) ∷ fs) =
    record { name = elim name [ none ↦ [] | some n ↦ n ]; type = type } ∷ read_fields fs

unfoldable pub read_cell : Option Bytes → ResultValue
read_cell none = record { value = []; is_null = true }
read_cell (some v) = record { value = v; is_null = false }

-- The loop over the cells of a row: `n` cells from index `i` on.
unfoldable pub read_cells : ℕ → ℕ → (ℕ → Option Bytes) → List ResultValue
unfolding read_cell
read_cells zero i row = []
read_cells (suc n) i row = read_cell (row i) ∷ read_cells n (suc i) row

unfoldable pub read_rows : ℕ → List (ℕ → Option Bytes) → List (List ResultValue)
unfolding read_cells
read_rows n [] = []
read_rows n (row ∷ rows) = read_cells n 0 row ∷ read_rows n rows

unfoldable pub read_set : Reply → ResultSet
unfolding read_fields read_rows
read_set r = record {
  fields = elim r.stored [ none ↦ [] | some s ↦ read_fields s.fields ];
  rows = elim r.stored [ none ↦ [] | some s ↦ read_rows (length s.fields) s.rows ];
  affected_rows = r.affected_rows;
  insert_id = r.insert_id;
  warning_count = r.warning_count;
}

-- `status <= 0`
abbrev pub is_clean : ℤ → Bool
is_clean (pos n) = n == 0
is_clean (negsuc n) = true

-- The loop over the result sets: the sets, and whether the last status is an error.
unfoldable pub read_sets : Replies → List ResultSet × Bool
unfolding read_set
read_sets (ends r status) = (read_set r ∷ [], is_clean status)
read_sets (goes_on r rest) = let (sets, ok) = read_sets rest in (read_set r ∷ sets, ok)

module _ (d : Driver) where
  -- `Connection::queryBuffered`; the time is set by the worker.
  unfoldable pub query_buffered :
      Bytes → Connection d → QueryResult → Connection d × QueryResult × Bool
  unfolding is_open read_sets
  query_buffered sql c out =
      let out' = record out { sets = []; query_string = sql } in
      elim c.mysql [
        | none ↦ (c, out', false)
        | some h ↦
            let (h', answer) = d.query sql h in
            let asked = record c { mysql = some h' } in
            let answered : Connection d × QueryResult × Bool = elim answer [
              | none ↦ (asked, out', false)
              | some replies ↦
                  let (sets, ok) = read_sets replies in (asked, record out' { sets = sets }, ok)
            ] in
            if is_open d c then answered else (c, out', false)
      ]

  abbrev first_reply : Replies → Reply
  first_reply (ends r status) = r
  first_reply (goes_on r rest) = r

  -- The cipher in the second column of the first row.
  unfoldable pub cipher_row : Reply → Bytes
  cipher_row r = elim r.stored [
    | none ↦ []
    | some s ↦ elim s.rows [ [] ↦ [] | row ∷ rows ↦ elim (row 1) [ none ↦ [] | some v ↦ v ] ]
  ]

  -- The first 36 bytes of `SHOW SESSION STATUS LIKE 'Ssl_cipher'`: the length that is passed leaves
  -- the closing quote out.
  abbrev pub cipher_query : Bytes
  cipher_query = codes "SHOW SESSION STATUS LIKE 'Ssl_cipher"

  -- `Connection::sslCipher`
  unfoldable pub ssl_cipher : Connection d → Connection d × Bytes
  unfolding cipher_row
  ssl_cipher c = elim c.mysql [
    | none ↦ (c, [])
    | some h ↦
        let cached : Bytes = elim (d.get_ssl_cipher h) [ none ↦ [] | some v ↦ v ] in
        let (h', answer) = d.query cipher_query h in
        let asked : Bytes = elim answer [
          | none ↦ []
          | some replies ↦ cipher_row (first_reply replies)
        ] in
        if is_empty cached then (record c { mysql = some h' }, asked) else (c, cached)
  ]
