-- ===== src/Tests.antt =====
-- The theorems at concrete inputs.
pub mod CidrTests
pub mod EngineTests
pub mod PlanTests
pub mod LibraryTests
pub mod ParserTests
pub mod ConfigTests
pub mod LinuxTests
pub mod FirewallTests
