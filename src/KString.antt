-- ===== src/KString.antt =====
-- kernel/kstring.cpp: the memory and text routines that the other components call.
-- `Memory` works on a memory image and on separate buffers, `Text` on NUL-terminated strings,
-- and `Number` on the conversions between numbers and text.
pub mod Memory
pub mod MemoryLaws
pub mod Text
pub mod Compare
pub mod Copy
pub mod Search
pub mod Number
pub mod Decimal
mod Tests
