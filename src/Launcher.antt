-- ===== src/Launcher.antt =====
-- comm/Launcher.cc: a program starts the modules that it talks to, and connects to them. A number of
-- processes, a rank and the id of a module are natural numbers, and below 2^31.
pub mod Ranks
pub mod Arguments
pub mod Processes
pub mod Modules
pub mod Start
