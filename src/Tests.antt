-- ===== src/Tests.antt =====
-- Runs of the definitions on concrete inputs, and an instance of each result.
mod Strings
mod Substrings
mod Directories
mod Registrations
mod Dialogs
mod Documents
mod Routes
mod Packets
