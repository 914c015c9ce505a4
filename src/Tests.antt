-- ===== src/Tests.antt =====
-- Concrete runs: the fixtures, and the theorems at inputs that exercise the code.
pub mod Fixture
mod Clocks
mod Names
mod Operations
mod States
mod Requests
mod Exchanges
mod Pushes
mod Stores
mod Messages
mod Commands
