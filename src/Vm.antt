-- ===== src/Vm.antt =====
-- cova/vm.go: the virtual machine, in one module for each of its parts.
pub mod State
pub mod Stack
pub mod Access
pub mod Number
pub mod Convert
pub mod FloatOps
pub mod BuiltIn
pub mod Call
pub mod Run
pub mod Load
mod Tests
pub mod Safety
pub mod Arithmetic
pub mod Return
