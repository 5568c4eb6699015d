-- ===== src/AttributeAuthority.antt =====
-- attribute-authority: the public parameters, and the decryption keys of those who have a token.
pub mod State
pub mod Request
pub mod Params
pub mod Issue
pub mod Handled
pub mod Entitled
pub mod Lifetime
pub mod Deliver
