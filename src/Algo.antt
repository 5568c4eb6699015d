-- ===== src/Algo.antt =====
-- algo/: the ABE keys and ciphertexts, and `ABESupport`, the wrapper of OpenABE.
pub mod Keys
pub mod Content
pub mod Context
pub mod Support
pub mod Decrypt
pub mod Attributes
pub mod Inversion
pub mod Cache
pub mod Transparent
pub mod RoundTrip
