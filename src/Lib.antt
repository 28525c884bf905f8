-- ===== src/Lib.antt =====
-- bienutil is a C++ library of headers. This development models parts of it whose behaviour is
-- computation, on machine words and arrays of them, and its shared and weak pointers, and proves what
-- they do.
--
-- Parts, and the files that model them:
-- - _bitutil.h: BitUtil. `_KMSBitSet8` to `_KMSBitSet64` are k_ms_bit_set8 to k_ms_bit_set64,
--   `KMultiplyTestOverflow` is k_multiply_test_overflow, `KUPow` is k_u_pow (its switch falls through
--   the cases, here k_u_pow_from). BitUtil/Msb and BitUtil/Power hold the theorems.
-- - utfconvert.h: Utf. Utf/Scalar has the constants and tests on code points, Utf/Encode
--   `_PCConvertUTF32ToUTF8` and the end of the conversions to UTF-16, Utf/Decode
--   `PcValidUTF8Sequence` and `UTF32ConvertUTF8`, Utf/Convert the six converting overloads of
--   `PCConvertUTF`, Utf/Strings `PCConvertString`, `ConvertString`, `FWriteUTFStream` and
--   `FWriteUTFFunctor`, which call a conversion once a round. Their child modules hold the theorems.
-- - fixedbv.h: FixedBv, over WordArray: an array of words read as a set of positions, with the
--   expressions that read or write one bit. FixedBv/Trim has the invariant; FixedBv/Bits,
--   FixedBv/Next and FixedBv/Whole the theorems.
-- - _simpbv.h: SimpBv, over WordArray again. `MSBitSet` of _bitutil.h has the compiler's count of
--   leading zeros as a parameter. SimpBv/First is about the lowest digit of a word, SimpBv/Search,
--   SimpBv/Clear, SimpBv/Count, SimpBv/Sets, SimpBv/Invert and SimpBv/Decrement hold the theorems.
-- - _vebtree.h: Veb has what a van Emde Boas tree offers, VebTree, and what it promises, IsLawful: it
--   acts as a set. Veb/Node is `VebTreeFixed` over two such trees, its summary S and its subtrees C,
--   with `m_nMinPlusOne`, `m_nMax`, `m_rgstSubtrees` and `m_stSummary` as its record Node.
--   Veb/Node/Valid has its invariant, that of `AssertValid`; Veb/Node/Clusters, Veb/Node/Extremes,
--   Veb/Node/Enter and Veb/Node/Settle are about what Insert, Delete and the searches do to the
--   clusters; Veb/Node/Insert, Veb/Node/Delete, Veb/Node/CheckDelete, Veb/Node/Throws, Veb/Node/Extent and
--   the modules below Veb/Node/Searches and Veb/Node/Takes are about one operation each, and Veb/Node/Refines puts
--   them together, so that trees can be subtrees again. VebFixed, over WordArray, is
--   `_VebFixedBase`, the bit mask at the bottom; VebFixed/Sets and VebFixed/Tree show that it is such a tree.
--   VebFixed/Order, VebFixed/Update, VebFixed/Take and VebFixed/Remove hold its theorems. The conversions of
--   a cluster's number and of a place in it to `_tyImplTypeSubtree`, which lose nothing, are not
--   written out; those to `_tyImplType` of the least element plus or minus one are (plus_one,
--   minus_one), since they wrap. Veb/Node/Takes has the assertions of `NSuccessorDelete`, with a flag for
--   whether they are tested; Veb/Node/Takes/Asserts is about them, and Veb/Node/Refines is without.
-- - The search for the next and the previous element, which bit vectors and bit masks share, is in
--   WordArray/Search, WordArray/Next, WordArray/Previous and WordArray/Scan, where the counts of zeros
--   are parameters, with what they give as IsScan. VebFixed/Zeros has `Ctz` and `Clz` of the words of 32
--   and of 64 bits, over the compiler's builtins, of which the documented behaviour is assumed, and
--   VebFixed/Words the results at these words. WordArray/Scans shows by example that counts of zeros
--   can behave as documented.
-- - segarray.h: SegArray, the block of segment pointers and the number of elements; n_els_per_segment
--   is `NElsPerSegment`. SegArray/Cells and SegArray/Ends are about one element and about memory for
--   the next, SegArray/Sequence, SegArray/Remove, SegArray/Contiguous and SegArray/Clear hold the
--   theorems.
-- - _shwkptr.h: ShPtr. ShPtr/Container has `_SharedWeakPtrContainer`, ShPtr/Strong and ShPtr/Weak the
--   two pointer classes, by their operations on a memory of blocks and of pointer variables, which may
--   be the same one; ShPtr/MayThrow the flavours of the releases for destructors that throw.
--   ShPtr/Program has the sequences of operations, ShPtr/Counts and ShPtr/Sound the invariant and its
--   proof, ShPtr/Safety, ShPtr/Locking and ShPtr/Faults what follows. ShPtr/Threads is the build for
--   several threads: each atomic access of a container is a step, `FAtomicAddNotEqual` of _util.h
--   included, and threads interleave in any order. The allocator is a parameter, which gives only
--   blocks that are not in use; the object has no pointers of its own. Counts are the default
--   uint32_t, and pointers are assumed to be fewer than it can count. Two operations are not safe in
--   all states: the assignment of a strong rvalue to a weak pointer, which leaks the strong reference,
--   and the `noexcept` constructor of a strong pointer from a weak rvalue, which ends the program where
--   the object is gone. ShPtr/Program calls runs careful in which the argument of the first is null and
--   the second finds another strong pointer that keeps the object (IsCareful), and the results on runs of
--   a single thread are about these; ShPtr/Faults and ShPtr/Locking have the other cases. ShPtr/Threads
--   has no such condition: the leaking assignment is among its moves, and a thread there has a count of
--   the strong references that it has leaked, which is no variable of the program; the constructor from
--   a weak rvalue, where the object is gone, leaves everything as it was, as the assignment from one
--   does. Assertions are not tested there.
-- Base holds what they share: Boolean tests, lists with lookups, and the digits of numbers.
--
-- State and errors: a pointer into a source, with the source's end, is the list of units from there
-- on; a destination is the list of units written; an object with an array is its list of words, and
-- an operation that changes it returns the new one. A thrown exception is `none`; a null pointer with
-- an error number is `err`, or `failed`, or `stopped`. In ShPtr an Outcome keeps the state in which
-- an exception leaves an operation, and tells it from undefined behaviour.
--
-- Numbers: a value of a type of w bits is a number below 2 ^ w, a hypothesis where it matters;
-- wrap-around is written out (u8, u16, u32, u64, bit_not). Word width and size are parameters.
--
-- Fuel: ApplyContiguous runs on the length of its range. The loops over strings run on the source's
-- length, and IsConverter, proved of all six conversions, says that each round consumes source; Utf.Strings.Copies shows that this is enough.
-- The writers' loops have one round more, for the empty source at the end. Other loops are
-- structural.
-- ShPtr.Threads.Progress lets threads run on until the sum of what they have left to do is zero.
--
-- Not modelled: the overloads of `PCConvertUTF` between characters of the same size (a memory copy),
-- the dispatch on the compiler and the counts of zeros written out for others, the generic `Clz` for
-- words narrower than 32 bits, which is not right, the wrap-around of a SegArray's number of elements,
-- the shifts, count, comparison and hashing of FixedBV, increment and
-- memory management of _simple_bitvec, of _vebtree.h insertion of all elements, the bitwise operators,
-- `VebTreeFixed<2>` and `VebTreeWrap`, and of `VebTreeFixed` the deletion of a tail; the test of
-- assertions (where the code relies on one, it is a hypothesis), but for those of ShPtr on one thread and of the search in `NSuccessorDelete`, which has a flag for it; and the other
-- headers of the library: of segarray.h insertion, growth by SetSize, compaction, bulk reads and writes
-- and the rotating buffer; the other smart pointers, containers, JSON, logging, platform and graphics wrappers.
pub mod Base
pub mod BitUtil
pub mod Utf
pub mod WordArray
pub mod FixedBv
pub mod VebFixed
pub mod SimpBv
pub mod Veb
pub mod SegArray
pub mod ShPtr
