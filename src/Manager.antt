-- ===== src/Manager.antt =====
-- src/dbl/manager: the settings, the domain lists and the domains, over the tables.
pub mod Settings
pub mod Domains
pub mod DomainLists
pub mod Blocking
pub mod Integrity
pub mod Counting
pub mod Setup
