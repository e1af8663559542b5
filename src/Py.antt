-- ===== src/Py.antt =====
-- The parts of Python that the SDK is written in: exceptions, coroutines, JSON values, dicts.
pub mod Json
pub mod Exceptions
pub mod Async
pub mod Dict
pub mod Base64
pub mod Text
pub mod Utf8
pub mod Dumps
pub mod Scan
pub mod Loads
