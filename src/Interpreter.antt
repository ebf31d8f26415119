-- ===== src/Interpreter.antt =====
-- The interpreter: registers, the instruction set, heap objects, the machine's state and the handlers.
pub mod Register
pub mod Isa
pub mod Objects
pub mod Machine
pub mod Allocate
pub mod Decode
pub mod Transfer
pub mod Values
pub mod Step
pub mod Frames
mod Tests
