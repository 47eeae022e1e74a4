-- ===== src/Optimizer.antt =====
-- cova/optimize.go: the folding of constants on the syntax tree.
pub mod Numeric
pub mod Constant
pub mod Expr
pub mod Stmt
pub mod Program
pub mod Wrapping
pub mod Signed
pub mod Unsigned
pub mod Machine
pub mod Divisor
pub mod Normal
pub mod Folded
pub mod Stable
pub mod Blame
pub mod Scopes
pub mod Whole
mod Tests
pub mod Compare
