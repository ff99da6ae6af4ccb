-- ===== src/User.antt =====
-- The programs of user/ that run on the kernel's system calls.
pub mod Utils
pub mod Random
pub mod MoreLess
pub mod Pendu
pub mod Shell
pub mod Theme
pub mod Philosophers
