-- ===== src/Natives.antt =====
-- The natives of src/natives.cpp.
pub mod Bindings
pub mod Config
pub mod Connect
pub mod Environment
pub mod Execute
pub mod Format
pub mod Hashes
pub mod Models
pub mod Obfuscation
pub mod Results
pub mod Settings
pub mod Statements
pub mod Status
pub mod Vectors
mod Tests
