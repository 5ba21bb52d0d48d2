-- ===== src/Tests.antt =====
-- Concrete tables, requests and libraries, on which the operations run and the theorems are applied.
pub mod Sample
mod Managers
mod Server
mod Client
mod Others
mod Tools
mod Failures
mod Replies
mod Workers
mod Daemons
mod Rounds
mod Sockets
mod Servers
mod Lists
