-- ===== src/Store.antt =====
-- The stored data: internal/store/models.go. Block numbers, counts, times (nanoseconds since the
-- epoch, 0 for Go's zero time) and chain ids are natural numbers; an ObjectID is its hex text.
pub mod Address
pub mod Money
pub mod Transfer
pub mod Analysis
pub mod Job
pub mod Label
pub mod StopReason
pub mod Profile
