-- ===== src/Lib.antt =====
-- DGD (Dworkin's Game Driver): parts of the server that the rest of it relies on.
--
-- Paths (Path, of src/path.h). Class Path brings paths from LPC code to a canonical form before
-- they reach the host. `resolve` models Path::resolve by its cursor: the bytes written so far, last
-- one first, and the start of the current component; `separator` is its branch at '/' and at the
-- final '\0'. `string` and `from` are the functions of the same names. Path/Normal has the
-- description in terms of lists of components that the code is compared with, Path/Parts the lemmas
-- on components, Path/Walk the invariant of the loop, Path/Laws what follows for the callers.
--
-- Callouts (CallOut, of src/call_out.cpp and src/call_out.h). CallOut/Table has the static
-- variables as a record and the heap of delayed callouts (enqueue, dequeue); CallOut/Lists the
-- linked lists (newcallout, freecallout, rmshort); CallOut/Clock the functions that other parts
-- call (init, cotime, check, create, remaining, del, info, delay); CallOut/Expire what moves
-- callouts when they are due (expire, the beginning of call, swapcount). CallOut/Heap and
-- CallOut/Queue prove the heap's order and contents, CallOut/Times what holds of times,
-- CallOut/Overflow what happens past the width of a cindex. The reading of the clock is an
-- argument. create calls enqueue or newcallout as check decided.
--
-- Swap device (Swap, of src/swap.cpp and src/swap.h). Swap/Device has the static variables and the
-- allocation of sectors (init, mapsize, newv, wipev, delv, alloc, count), Swap/Cache the cache of
-- sectors (load, readv, writev, dreadv). A slot of the cache is named by its index in place of a
-- pointer; the swap file and the snapshot are functions from sectors to bytes. Swap/Compress has
-- compress and decompress, with the size in the first four bytes; the data that decompress reads in
-- pieces is one list. Swap/Size proves mapsize, Swap/Free the list of free sectors. Swap/Chain
-- reads the first-last list as a list of slots and Swap/Relink proves the changes of its links;
-- Swap/Coherent says what the cache and the swap file hold between them (the sectors in use are a
-- parameter, Live), Swap/Filled and Swap/Emptied that a sector may come into a slot and go out of
-- it, Swap/Saved what place in the swap file it gets; Swap/Listed, Swap/Brought, Swap/Claimed and
-- Swap/Loaded join these into the cases of load, which Swap/Recent puts together. Swap/Transfer
-- proves readv, and Swap/Written, Swap/Writes, Swap/Vectors and Swap/Roundtrip writev, by rounds
-- and by vectors; Swap/Fresh and Swap/Given prove newv for the cache. Swap/Bits and Swap/Coded say
-- what bits compress writes, and Swap/Decoded and Swap/Shorter prove that decompress reads them
-- back and that they are fewer.
--
-- Strings (Str, of src/str.cpp). create, cmp, add, index and range on the bytes of a string.
-- Str/Order proves the order, Str/Range the ranges.
--
-- Arrays (Arr, of src/array.cpp, with Float::cmp of src/host/simfloat.cpp). Arr has the order of
-- values (cmp) and the binary search that the operators share (search), Arr/Sets the operators
-- create, add, sub, intersect, setAdd (set_add), setXAdd (set_x_add), index and range. std::qsort
-- is an argument; what is asked of it is in IsSortOf of Arr/Found: the same values in an order that
-- cmp accepts. Objects that were destructed are told by a function in World. Arr/Match says what
-- search looks for, Arr/Neighbours proves what it does among arrays with the same tag, Arr/Search
-- the search, Arr/Order the order, Arr/Found, Arr/Both and Arr/Laws reduce the operators to lists.
-- Strings among the values compare by Str.
--
-- Hash tables (Hash, of src/hash.h and src/hash.cpp). The table of hashchar, hashstr and hashmem,
-- and lookup, with a chain as the list of its entries and an entry known by its address.
-- Hash/Lookup proves what lookup finds and leaves, Hash/Bytes what holds of the hash functions.
--
-- Numbers of any size (Asn, of src/host/asn.cpp). The words of class Asi as lists, the lowest word
-- first. Asn has add, sub, cmp and multRow (mult_row); Asn/Shift has lshift and rshift, where shl
-- and shr are their loops; Asn/Mult has mult1, multInner and sqr, Asn/Long mult; Asn/Wordinv has
-- wordinv; Asn/Div has div with its rounds; Asn/Text has strtonum and numtostr, with the strings as
-- lists of bytes; what is undefined in numtostr (words behind the end of its scratch number, and
-- too wide a shift) and the error of String::create are results of their own. The memory that the
-- functions get for their scratch numbers is separate lists, and the array in which div leaves a
-- remainder below a quotient is two lists. Asn/Value says what number the words stand for. Asn/Sums
-- and Asn/Rows prove the sums and rows, Asn/Shifted and Asn/Scaled the shifts; the division goes
-- from the guess (Asn/Guess, Asn/Digit) over its corrections (Asn/DivStep) and a round (Asn/Round)
-- to the rounds (Asn/Quotient) and the operands (Asn/Operands, Asn/Whole). Asn/Apart and Asn/Joined
-- prove the differences and sums of Karatsuba's method, Asn/Product, Asn/Square and Asn/LongProduct
-- the products and the square; Asn/Bytes, Asn/Read, Asn/Write, Asn/Signed and Asn/Minus the
-- conversions. The sizes are not bounded. An operand that shares its memory with the result, as in
-- c.div(c, mod, t), is a list of its own.
--
-- Editor (Ed, of src/ed/line.cpp, src/ed/line.h, src/ed/buffer.cpp and src/ed/buffer.h). The text
-- of the editor is a tree of blocks, which are never changed once they are made, so a block number
-- is the tree below it. Ed has the blocks and cat; Ed/Chain the search by interpolation for the
-- page of a line, which split1 and put1 have in common (an address is the place of a page in its
-- chain, and a distance is a number of pages times BLOCK_SIZE); Ed/Split has split1, Ed/Put put1
-- and put, Ed/Create putblk, putln and create with what they need of the write buffer, Ed/Buffer
-- the operations of EditBuf with their errors (put is EditBuf::put, Put.put LineBuf::put,
-- range_lines EditBuf::range), and Ed/Lines startblock, addblock and endblock (add_all is a run of
-- them). The list of lines that a block stands for is lines_of of Ed/Cat. Ed/Find proves the
-- search, Ed/Split/Laws and Ed/Split/Tree the split, Ed/Put/Pages and Ed/Put/Whole the printing,
-- Ed/Steps the calls that the operations share, Ed/TooLarge cat at any depth, Ed/Lines/Laws a run
-- of addblock, Ed/Edits, Ed/Insert and Ed/Restore the operations on the list of lines. Blocks are
-- assumed to be read back from the temporary file as they were written.
--
-- Memory (Mem, of src/alloc.cpp). The splay trees of free chunks, class SplayNode: insert and seek
-- share the loop descend, which takes the tree apart into pieces on the left and on the right
-- (where the source links a node to l->right or r->left, the model adds a piece, and close_left and
-- close_right link them; a node that seek finds without a smaller one beside it is linked on the
-- right, and is taken out again by seek_end, where the source does not link it); del names its node
-- by the path from the root in place of the links to parents. Mem/Descend proves the loop, Mem/Laws
-- insert and seek, Mem/Remove del.
--
-- Prelude passes on library names and has Boolean tests, lists over native numbers and arrays.
--
-- Widths are the defaults of src/config.h: 16 bits for cindex, uindex, ssizet and Sector, 32 for
-- Uint; wrap-around is written out where the source's arithmetic can reach it.
--
-- Fuel: sift_up gets the index plus one, which halving cannot outlast; sift_down gets the size of
-- the heap plus one, enough while indices do not wrap around; next_slot gets the 128 slots of the
-- cyclic buffer; search gets one more than the array has values, and the interval shrinks; mapsize
-- gets one more than a Sector has values, and the number grows in every round but the last;
-- shift_from gets 31, and the highest bit of a word that is not 0 is set after 31 shifts at most;
-- mult_inner and sqr get the size of the number, and every round has smaller ones; mult gets the
-- sizes of both numbers, and each round takes some words away; wordinv gets 31, since its bit
-- leaves the word after as many rounds; the search for a page gets the number of pages, of which
-- every round leaves fewer, and the loops that print get one more than the number of lines, of
-- which every page prints one; decompress gets one more than the number of bytes that it gives;
-- len_minus gets 5, and it shifts too far in the fifth round at the latest. Where the source has no
-- value to return, the model that runs out of fuel returns none, or the words as they are; what is
-- stated of the heap, of search, of the editor, of mapsize and of numbers includes that they do
-- not.
--
-- Not modelled: the memory manager around its trees, the execution of LPC code in CallOut::call,
-- CallOut::list, the snapshot functions of both parts, modinv, the Montgomery products and powers
-- of class Asi and the functions of class ASN in src/host/asn.cpp, reference counts and merge
-- tables, mappings, the temporary file and the commands of the editor, and all other parts of the
-- server.
pub mod Prelude
pub mod Path
pub mod CallOut
pub mod Ed
pub mod Swap
pub mod Str
pub mod Hash
pub mod Mem
pub mod Arr
pub mod Asn
