-- ===== src/Console.antt =====
-- kern/console.cc, kern/console.h, kern/terminal.cc and kern/terminal.h: formatted output,
-- the screen and its copy. A C string is the list of its bytes before the terminator.
pub mod Format
pub mod Screen
pub mod Sources
pub mod Terminal
