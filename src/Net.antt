-- ===== src/Net.antt =====
-- Addresses and names of networks: the validation helpers of dayshield-core/src/config/models.rs,
-- on the parsers of the standard library.
pub mod Parsing
pub mod Validation
pub mod Characters
pub mod Printing
pub mod Cidr
pub mod Urls
pub mod Names
mod Tests
