-- ===== src/Consumer/Session.antt =====
-- consumer.cpp: the life of a consumer between its users and the network, and its callbacks.
pub mod Census
pub mod Balance
pub mod Ends
pub mod Steps
pub mod Accounts
pub mod Settling
pub mod Draining
