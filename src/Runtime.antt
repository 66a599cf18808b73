-- ===== src/Runtime.antt =====
-- src/runtime: the objects of a running program and the built-in procedures on them, in C.
pub mod Heap
pub mod Utils
pub mod PairList
pub mod Vector
pub mod Strings
pub mod Small
pub mod Number
pub mod Output
pub mod Freelist
