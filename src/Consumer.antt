-- ===== src/Consumer.antt =====
-- consumer: data and content keys are fetched, and decrypted for the callbacks that wait.
pub mod State
pub mod Fetch
pub mod Consume
pub mod Retries
pub mod Answers
pub mod Flights
pub mod Ledger
pub mod Runs
pub mod Reach
pub mod Session
