-- ===== src/Command.antt =====
-- src/command.c and src/command.h: the command dispatcher and its handlers.
pub mod Context
pub mod Answers
pub mod Basic
pub mod Values
pub mod Lookup
pub mod Removal
pub mod Numbers
pub mod Counters
pub mod Strings
pub mod Keyspace
pub mod Keys
pub mod Dispatch
pub mod Routing
pub mod Served
pub mod Serving
pub mod Execute
pub mod Machine
pub mod Refines
pub mod Performs
pub mod Listing
mod Tests
