-- ===== src/Domain.antt =====
-- The normalized model of backend/internal/domain/models.go. A struct is a record with the
-- source's fields. A string type with named constants is a data type with a constructor for each
-- constant and, where a value may come from outside, one more for any other text. Times are
-- nanoseconds since the epoch, and Go's int and int64 are integers.
mod Inventory
mod Plans
mod Jobs
pub use Inventory.*
pub use Plans.*
pub use Jobs.*
