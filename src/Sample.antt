-- ===== src/Sample.antt =====
-- Concrete libraries, at which the theorems are applied: toy versions of OpenABE and of the names
-- and blocks of ndn-cxx, with every law that the development asks of them.
pub mod Codec
pub mod Abe
pub mod Names
pub mod Certificates
pub mod Keys
pub mod AlgoTests
pub mod TrustTests
pub mod ProducerTests
mod CommandTests
mod CacheTests
pub mod ConsumerTests
mod SessionTests
pub mod AuthorityTests
mod LifetimeTests
pub mod DeliveryTests
mod ExampleTests
