-- ===== src/Classfile.antt =====
-- The class file: the constant pool and the file format of classfile/.
pub mod Bytes
pub mod ConstantPool
pub mod Writer
pub mod Loader
mod Tests
