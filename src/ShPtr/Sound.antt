-- ===== src/ShPtr/Sound.antt =====
-- src/_shwkptr.h: every operation of the pointers keeps the counts in agreement with the pointers.
pub mod Inv
pub mod Resets
pub mod Adopts
pub mod Copies
pub mod Moves
pub mod Locks
pub mod Creates
pub mod Runs
pub mod Scope
