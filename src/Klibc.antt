-- ===== src/Klibc.antt =====
-- libs/klibc: memory, strings and numbers. Memory is a function from addresses to bytes; the code
-- that these functions are called with keeps its buffers below the end of the address space.
pub mod Mem
pub mod Str
pub mod Num
mod Tests
