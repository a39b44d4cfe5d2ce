-- ===== src/Fs.antt =====
-- Challenge5/fs.c, the file system over a block device: the parts that its modules model.
pub mod Types
pub mod Bitmap
pub mod Tables
pub mod Layout
pub mod Mount
pub mod Shape
pub mod Files
pub mod Io
pub mod Invariant
pub mod Names
