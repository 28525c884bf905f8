-- ===== src/ShPtr/Threads.antt =====
-- src/_shwkptr.h built for several threads (`IS_MULTITHREADED_BUILD`): the counts of one container
-- are atomic, and each atomic access is one step.
pub mod System
pub mod Invariant
pub mod Hands
pub mod Safety
pub mod Advance
pub mod Progress
mod Tests
