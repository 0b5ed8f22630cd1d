-- ===== src/Lib.antt =====
-- A model of the MySQL component for open.mp, and the theorems about it.
--
-- The component gives Pawn scripts asynchronous access to MySQL servers. A native builds a job on
-- the main thread; the query guards admit or refuse it; the worker thread of its connection runs
-- it; and the next tick of the main thread delivers its result. The parts, and where they are
-- modelled:
--   Sql         the two byte scanners, `MySQLComponent::isMultiStatement` of src/MySQLComponent.cpp
--               and `CountPlaceholders` of src/Statement.cpp, with an independent lexer (Sql/Code)
--               and the pieces of a query that stand for themselves (Sql/Fragment)
--   Model       the active-record models of src/Model.hpp and src/Model.cpp: bindings, SQL builders,
--               and the literals that `ModelFieldLiteral` of src/natives.cpp renders
--   Worker      `ConnectionWorker` of src/QueryQueue.cpp as a step relation of two threads
--   Result      the buffered results of src/Result.hpp
--   Statement   the staged parameters of src/Statement.hpp and src/Statement.cpp, and
--               `PreparedStatement::execute` (Statement/Execute)
--   Query       `QueryJob` of src/Query.hpp, and what the worker does with a job (Query/Run)
--   Connection  src/Connection.hpp and src/Connection.cpp over a client library that is a
--               parameter: the options and their natives, the TLS policy of `Connection::open`
--               (Connection/Open), buffered queries (Connection/Client), and the other operations of
--               a session (Connection/Session)
--   Component   the main thread's state in src/MySQLComponent.hpp and src/MySQLComponent.cpp:
--               registries, query guards, histories of calls (Component/Policy), and the result
--               cache with the natives that read it (Component/Cache)
--   Dispatch    the delivery of results on the main thread: `dispatchJob`, `dispatchHash`,
--               `applyModelResult` and `onTick` of src/MySQLComponent.cpp (the calls to be made are
--               described apart from the code in Dispatch/Expected)
--   HashPool    the hashing threads of `QueryEngine` in src/QueryQueue.cpp as a step relation
--   Hashing     the hashes of src/Hashing.cpp over an Argon2 library that is a parameter
--   Logging     the log of src/MySQLComponent.cpp and its natives
--   Natives     the natives of src/natives.cpp: `mysql_connect` (Natives/Connect, with `ExpandEnv` in
--               Natives/Environment), `mysql_connect_config` (Natives/Config), the obfuscation of its
--               file (Natives/Obfuscation), `mysql_config_set` (Natives/Settings), `mysql_format`
--               (Natives/Format), `DecodeFormat` and the model operations (Natives/Models), the
--               natives that bind models (Natives/Bindings, with what they promise in
--               Natives/Bindings/Spec), `mysql_execute` and its kin (Natives/Execute), prepared
--               statements (Natives/Statements), vectors (Natives/Vectors), passwords
--               (Natives/Hashes), the status of a connection (Natives/Status), and the active
--               result (Natives/Results)
--   Amx         the parameters that stand for the Pawn virtual machine
--   Prelude     shared names, lists, integers and maps
--
-- Numbers: a byte is a number; handles, sizes and counters are natural numbers without a bound, so
-- a counter of handles does not wrap (the sources would need 2^31 registrations); conversions of
-- `int` to `unsigned int` are modulo 2^32. Times are readings of the steady clock in milliseconds.
-- Maps are association lists, since no property depends on the order of a hash map. All loops are
-- structural recursions over the list that they walk, or over the answers of the client library,
-- which are finite; only the printing of numbers has fuel, one
-- more than the number, which has at most that many digits.
--
-- Not modelled: the client library, the Argon2 library, the random device and the AMX, which are
-- parameters; the registration of natives and of the component; the contents of floats, which are
-- passed on as bit patterns; the probes in testscripts.
pub mod Prelude
pub mod Amx
pub mod Sql
pub mod Model
pub mod Result
pub mod Statement
pub mod Worker
pub mod HashPool
pub mod Query
pub mod Connection
pub mod Component
pub mod Dispatch
pub mod Hashing
pub mod Natives
pub mod Logging
