-- ===== src/Examples.antt =====
-- Runs of the model on concrete inputs.
mod Reading
mod Builtins
mod Constants
mod Compiling
mod Numbers
mod Heaps
mod Integers
mod Lexing
mod Scopes
mod Output
