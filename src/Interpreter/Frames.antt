-- ===== src/Interpreter/Frames.antt =====
-- The stack of frames across one round of Interpreter::Invoke (interpreter/interpreter.cpp).
pub mod Primitives
pub mod Handlers
pub mod Values
pub mod Moves
pub mod Calls
