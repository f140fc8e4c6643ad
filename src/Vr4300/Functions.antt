-- ===== src/Vr4300/Functions.antt =====
-- vr4300/functions.c: the instructions of the integer unit, as the execution stage calls them.
-- `rs` and `rt` are the values of the source registers. Branches are the versions that detect
-- busy waiting, which common/common.h selects.
pub mod Arith
pub mod Branches
pub mod Multiply
pub mod Shifts
pub mod Requests
pub mod CacheOps
pub mod Table
pub mod Words
