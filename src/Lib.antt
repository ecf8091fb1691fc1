-- ===== src/Lib.antt =====
-- parquet-go: a Go library for files in the Parquet format.
--
-- The program reads and writes rows through readers and writers that wrap one another (dedupe.go,
-- filter.go, scan.go), merges and concatenates the rows of readers (merge.go), cuts ranges of rows out of
-- column chunks (row_range.go), encodes the values of pages (encoding/rle, encoding/delta,
-- encoding/plain, encoding/bytestreamsplit), tells by filters which values may be there (bloom), checks
-- levels and indexes before it stores them in narrow integers (limits.go), and keeps the bounds of each
-- page in a column index (column_index.go, order.go), in which it finds the page that may hold a value
-- (search.go).
--
-- Files and code:
-- - Search models search.go: `find`, `binary_search` and `linear_search` over a record `ColumnIndex` of
--   the functions that they call. Search/Linear and Search/Binary hold their laws.
-- - Rows/Stream is a RowReader as its consumer sees it: the list of the results of its calls. Over it
--   Rows/Dedupe models dedupe.go, Rows/Filter models filter.go and Rows/Scan models scan.go; a call
--   made when the list is used up is the result `none`. A writer is a function of the model's caller.
-- - Rows/Range models rangePages of row_range.go over an interface of Pages (`PageSource`), whose
--   documented behaviour is the record `IsPages`; Rows/Range/Examples fills both.
-- - Rows/Merge models the search of merge.go for the rows that one reader may emit together, and
--   Rows/Merge/Two the loop of mergedRowReader2 over buffered rows, with the steps that it takes in
--   Rows/Merge/Emits. Rows/Merge/Buffered is bufferedRowReader and Rows/Merge/Reader the whole of
--   mergedRowReader2, over it. Rows/Merge/Tree is the tournament tree of losers of mergedRowReader
--   (playInitialGames, playGame, replayGames, runBound), whose invariant Tree/Won is, and
--   Rows/Merge/Many the whole of mergedRowReader, its ReadRows in Many/Reading, with the states
--   between its steps in Many/State. Rows/Concat models its concatenation of readers, and Rows/Seek
--   the wrapper that seeks forward in it, over an interface of readers (`RowSource`) whose contract is
--   the record `IsSource`. Rows/Group models the rows of merged row groups (mergedRowGroupRows) over
--   the same interface. Rows/Sorting models the sorting columns that merged row groups share
--   (merge.go, sorting.go), over any names that can be compared.
-- - Limits models the make functions of limits.go, with Go's conversion to uint.
-- - Bounds/Truncate models the truncation of bounds and Bounds/Indexer the indexers and
--   FileColumnIndex of column_index.go; Bounds/Order models order.go and order_purego.go. Bounds/Bytes is
--   Go's bytes.Compare.
-- - Encoding/Rle models encoding/rle/rle.go and rle_purego.go: the encoders in Rle and Rle/Encode, the
--   decoders in Rle/Decode, the packing of words in Rle/Codec. Rle/Blocks and Rle/Bits hold the round
--   trip of booleans.
-- - Encoding/Delta models encoding/delta/binary_packed.go and binary_packed_purego.go: Delta/Encode and
--   Delta/Decode, over the integers of Delta/Integers; Delta/Decode/Encoded holds the round trip.
--   Delta/Lengths models length_byte_array.go and Delta/Arrays byte_array.go, over them. Encoding/Varint
--   is encoding/binary of Go's standard library, Encoding/Result the results of fallible code.
-- - Encoding/Plain models the byte arrays of encoding/plain/plain.go, and Encoding/ByteStreamSplit the
--   portable version of encoding/bytestreamsplit.
-- - Bloom models bloom/: blocks by block_optimized.go and, as a reference, by block_default.go, filters by
--   filter.go and filter_default.go. Bloom/Words, Bloom/Reference, Bloom/Laws and Bloom/Bytes hold their laws.
-- - Encoding/Bitpack is the interface of the module github.com/parquet-go/bitpack, which is not part of
--   the repository: the code's calls of it are a parameter.
-- - Prelude passes on the names of the libraries and holds the helpers that the parts share.
--
-- Slices of a fixed length are functions of their index in Rows/Merge/Tree and Rows/Merge/Many, all others
-- are lists.
--
-- Integers: an int of the code that counts or indexes is a natural number; an int32 or int64 that is
-- encoded is its bit pattern, with sums and differences modulo 2 ^ w, and a uint64 that is built is kept
-- modulo 2 ^ 64. Subtraction that could fall below 0 is under the guard that the code has.
--
-- Fuel: the loops that take more than one element a round run on fuel, and each is given the length of
-- what it goes through (or the number of pages, the rows of a seek, the room of a merge, or the number
-- of readers on a path of its tree) as fuel, of which every round takes one at least. Where the fuel
-- could run out the result would be `none` or `stuck`, which is neither a value nor an error of the
-- code. The loop that skips rows in Rows/Group may not end; it is given any number of rounds. A call
-- of mergedRowReader makes at most one round more than it has room for rows, if its readers keep to
-- their contract: only the first round reads a buffer.
--
-- Not modelled: schemas, reflection, conversion, files and pages, compression, the versions in
-- assembly, the bit-packed encoding and the variant format. Slices share no memory in the model,
-- except that `deduplicate` returns the slice that it has rearranged. Where a decoder slices its input
-- without a test of its length, the bytes behind the input in its array are a parameter, `spare`. The
-- messages of errors are left out; a decoder's error comes without the values decoded before it.
pub mod Prelude
pub mod Search
pub mod Rows
pub mod Limits
pub mod Bounds
pub mod Encoding
pub mod Bloom
