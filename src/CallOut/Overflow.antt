-- ===== src/CallOut/Overflow.antt =====
-- Where the heap outgrows half of the values of a cindex: `j <<= 1` in dequeue's downward loop wraps
-- around, which the test of `i` before the loop does not prevent.
use dgd.CallOut.Table.{CallOut}
