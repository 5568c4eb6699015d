-- ===== src/Examples.antt =====
-- examples: three programs, an attribute authority, a producer and a consumer under KP-ABE.
pub mod Programs
pub mod Serving
pub mod Hello
pub mod Ready
