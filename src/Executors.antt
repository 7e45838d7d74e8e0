-- ===== src/Executors.antt =====
-- executors/: the commands that the SSH and the Apptainer executor make of their arguments, and the
-- choice of an executor.
pub mod Quoting
pub mod Shell
pub mod Arguments
pub mod Commands
pub mod ExecCommands
pub mod Collect
pub mod Caps
pub mod Apptainer
pub mod Swap
pub mod Choice
