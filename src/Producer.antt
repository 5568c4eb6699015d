-- ===== src/Producer.antt =====
-- producer: what a producer knows of policies, and the data that it makes.
pub mod Policies
pub mod Decimal
pub mod State
pub mod Produce
pub mod Command
pub mod Cache
