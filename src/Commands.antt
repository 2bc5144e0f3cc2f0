-- ===== src/Commands.antt =====
-- The commands, cmd: what they compute between the command line, the server and the screen.
pub mod View
pub mod Admin
