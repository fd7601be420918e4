-- ===== src/Base/Decimal.antt =====
-- Decimal text: `String(n)`, `BigInt(text)` and the pattern `^(0|[1-9]\d*)$`, by which several
-- modules test atomic amounts.
mod Digits
mod Inverse
unfoldable pub use Digits.*
pub use Inverse.*
