-- ===== src/Main.antt =====
-- src/main.c: the program from its start to its end. The start-up runs self-tests on the store
-- that the server then gets; what they print on the error stream is modelled for the table only.
pub mod Checks
pub mod Table
pub mod Parser
pub mod Commands
pub mod Program
pub mod Keeping
pub mod Lifecycle
pub mod Leftover
mod Tests
