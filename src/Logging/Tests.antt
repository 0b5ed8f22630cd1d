-- ===== src/Logging/Tests.antt =====
-- Debug lines of src/MySQLComponent.cpp: to the console and the file while it is on, and nowhere
-- after that.
use omp_my_sql.Prelude.{true, false, [], ◌∷◌, codes, ◌≡◌, refl}
use omp_my_sql.Logging.{Log, debug_level, message_level, mysql_debug, mysql_log}

abbrev silent : Log
silent = record { has_core = true; debug = false; debug_file = []; console = []; files = [] }

abbrev session : Log
session =
    let l₁ = (mysql_log (codes "12:00") (λ f. true) (codes "lost") silent).0 in
    let l₂ = (mysql_debug (codes "12:00") (λ f. true) true (codes "sql.log") l₁).0 in
    let l₃ = (mysql_log (codes "12:01") (λ f. true) (codes "hello") l₂).0 in
    let l₄ = (mysql_debug (codes "12:02") (λ f. true) false [] l₃).0 in
    (mysql_log (codes "12:03") (λ f. true) (codes "lost too") l₄).0

session_console :
    session.console
    ≡ (debug_level, codes "[omp-MySQL] debug logging ENABLED (mirroring to 'sql.log')")
      ∷ (debug_level, codes "[omp-MySQL] hello")
      ∷ (message_level, codes "[MySQL] debug logging disabled")
      ∷ []
unfolding mysql_log mysql_debug
session_console = refl

session_files :
    session.files
    ≡ (codes "sql.log", codes "[12:00] [omp-MySQL] debug logging ENABLED (mirroring to 'sql.log')")
      ∷ (codes "sql.log", codes "[12:01] [omp-MySQL] hello")
      ∷ []
unfolding mysql_log mysql_debug
session_files = refl
