-- ===== src/Logging.antt =====
-- The logging of src/MySQLComponent.cpp, `log`, `setDebug` and `debugLog`, and its natives in
-- src/natives.cpp. The logger of the server and the file system are the lines written so far; the
-- time stamp of a line is a parameter. A text is written up to its NUL.
mod Tests
use omp_my_sql.Prelude.{Bool, true, List, [], ◌∷◌, ◌++◌, Bytes, codes, is_empty, if◌then◌else◌}
use omp_my_sql.Hashing.{c_str}

pub data LogLevel : Type 0 where
  debug_level message_level error_level : LogLevel

-- `core_`, `debug_` and `debugFile_`, with what was written.
pub record Log : Type 0 where
  pub has_core : Bool
  pub debug : Bool
  pub debug_file : Bytes
  pub console : List (LogLevel × Bytes)
  -- the lines appended to files: the file, and the line
  pub files : List (Bytes × Bytes)

-- `log`
unfoldable pub log : LogLevel → Bytes → Log → Log
unfolding c_str
log level message l =
    if l.has_core
    then record l { console = l.console ++ (level, c_str (codes "[MySQL] " ++ message)) ∷ [] }
    else l

-- A line for the file, without its end.
unfoldable pub stamped : Bytes → Bytes → Bytes
unfolding c_str
stamped stamp body = codes "[" ++ stamp ++ codes "] [omp-MySQL] " ++ c_str body

module _ (stamp : Bytes) (can_append : Bytes → Bool) where
  -- The second half of `debugLog`.
  unfoldable pub mirror : Bytes → Log → Log
  unfolding stamped
  mirror body l =
      let appended = record l { files = l.files ++ (l.debug_file, stamped stamp body) ∷ [] } in
      if is_empty l.debug_file then l else if can_append l.debug_file then appended else l

  -- `debugLog`
  unfoldable pub debug_log : Bytes → Log → Log
  unfolding mirror c_str
  debug_log body l =
      let shown =
        if l.has_core
        then record l {
          console = l.console ++ (debug_level, c_str (codes "[omp-MySQL] " ++ body)) ∷ [];
        }
        else l in
      if l.debug then mirror body shown else l

  -- `setDebug`
  unfoldable pub set_debug : Bool → Bytes → Log → Log
  unfolding debug_log
  set_debug on file l =
      let l' = record l { debug = on; debug_file = file } in
      let tail = if is_empty file then [] else codes " (mirroring to '" ++ file ++ codes "')" in
      if on then debug_log (codes "debug logging ENABLED" ++ tail) l' else l'

  -- `mysql_debug`
  unfoldable pub mysql_debug : Bool → Bytes → Log → Log × Bool
  unfolding set_debug log
  mysql_debug enable file l =
      let l' = set_debug enable file l in
      ((if enable then l' else log message_level (codes "debug logging disabled") l'), true)

  -- `mysql_debug_enabled`
  abbrev pub mysql_debug_enabled : Log → Bool
  mysql_debug_enabled l = l.debug

  -- `mysql_log`
  unfoldable pub mysql_log : Bytes → Log → Log × Bool
  unfolding debug_log
  mysql_log message l = (debug_log message l, true)
