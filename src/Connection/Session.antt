-- ===== src/Connection/Session.antt =====
-- The other operations of `Connection` in src/Connection.cpp, on a handle of the client library.
use omp_my_sql.Prelude.{
  Bool, true, false, not, [], Bytes, is_empty, Option, none, some, if◌then◌else◌,
}
use omp_my_sql.Connection.Client.{Driver, Connection, is_open, ssl_cipher}

module _ (d : Driver) where
  -- `Connection::query`: the loop drops every result, and does not look at how it ends.
  unfoldable pub query : Bytes → Connection d → Connection d × Bool
  unfolding is_open
  query sql c = elim c.mysql [
    | none ↦ (c, false)
    | some h ↦
        let (h', answer) = d.query sql h in
        let asked = record c { mysql = some h' } in
        let ok : Bool = elim answer [ none ↦ false | some replies ↦ true ] in
        if is_open d c then (asked, ok) else (c, false)
  ]

  -- `Connection::setCharset`
  unfoldable pub set_charset : Bytes → Connection d → Connection d × Bool
  set_charset name c = elim c.mysql [
    | none ↦ (c, false)
    | some h ↦ let (h', ok) = d.set_charset name h in (record c { mysql = some h' }, ok)
  ]

  -- A text of the client library, empty for a null pointer.
  abbrev text_of : Option Bytes → Bytes
  text_of none = []
  text_of (some s) = s

  -- `Connection::getCharset`
  unfoldable pub get_charset : Connection d → Bytes
  get_charset c = elim c.mysql [ none ↦ [] | some h ↦ text_of (d.charset_name h) ]

  -- `Connection::stat`
  unfoldable pub stat : Connection d → Bytes
  stat c = elim c.mysql [ none ↦ [] | some h ↦ text_of (d.stat h) ]

  -- `Connection::sslEnabled`
  unfoldable pub ssl_enabled : Connection d → Connection d × Bool
  unfolding is_open ssl_cipher
  ssl_enabled c =
      let (c', cipher) = ssl_cipher d c in
      if is_open d c then (c', not (is_empty cipher)) else (c, false)
