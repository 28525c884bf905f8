-- ===== src/ShPtr.antt =====
-- src/_shwkptr.h: shared and weak pointers over one reference-counted container.
pub mod Outcome
pub mod Container
pub mod Strong
pub mod Weak
pub mod Program
pub mod Family
pub mod Counts
pub mod Sound
pub mod Safety
pub mod Locking
pub mod Faults
pub mod MayThrow
pub mod Threads
mod Tests
