-- ===== src/ShPtr/Counts.antt =====
-- src/_shwkptr.h: what the counts of a container have to be, and the member functions of the
-- container against that.
pub mod Pointers
pub mod Balance
pub mod Local
pub mod Moves
