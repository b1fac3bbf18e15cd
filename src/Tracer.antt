-- ===== src/Tracer.antt =====
-- The fund tracer (internal/tracer).
pub mod Types
pub mod Assets
pub mod Identity
pub mod Money
pub mod Ledger
pub mod Extension
pub mod Conversion
pub mod Facts
pub mod Branch
pub mod Anchors
pub mod Dependencies
pub mod RootTrace
pub mod Stopping
pub mod Search
pub mod Retrace
mod Tests
mod DependenciesTests
mod SearchTests
mod RetraceTests
mod StoppingTests
mod ConversionTests
mod BranchTests
mod AnchorsTests
