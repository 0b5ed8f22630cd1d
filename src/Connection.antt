-- ===== src/Connection.antt =====
-- `Connection` of src/Connection.hpp and src/Connection.cpp.
pub mod Options
pub mod Open
pub mod Client
pub mod Session
mod Tests
