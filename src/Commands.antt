-- ===== src/Commands.antt =====
-- src/commands.py and src/service.py: the command line, from the parsed arguments on.
pub mod Shell
pub mod Service
pub mod Status
pub mod Main
pub mod Quiet
pub mod Validated
pub mod Permitted
pub mod Exit
pub mod Refusal
