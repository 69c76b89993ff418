-- ===== src/CallOut.antt =====
-- src/call_out.cpp: the callout table. Delayed callouts with millisecond precision or far in the
-- future wait in a heap at the low end of the table; the others are in linked lists at its high end,
-- one list for each second of a cyclic buffer, one of callouts to run and one of running callouts.
-- The integer types are the defaults of src/config.h: cindex and uindex have 16 bits, Uint has 32.
pub mod Table
pub mod Heap
pub mod Lists
pub mod Clock
pub mod Expire
pub mod Queue
pub mod Times
pub mod Overflow
mod Tests
