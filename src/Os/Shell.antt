-- ===== src/Os/Shell.antt =====
-- os/src/os_console.c and os/src/os_shell.c: the console's lines and the commands of the shell.
mod Console
mod Commands
mod Editing
mod Splitting
mod Registered
mod Typing
mod Tests
