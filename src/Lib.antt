-- ===== src/Lib.antt =====
-- wimlib reads and writes Windows Imaging (WIM) archives. This development models the parts of its
-- library that other code stands on, translated from the C sources, and proves what they promise.
--
-- The parts and their files:
-- Error.antt: the error codes of include/wimlib.h that the modelled functions return, as a result type.
-- FileIo.antt: src/file_io.c. A descriptor is the bytes of its file, the position and the kind; what the
--   system answers to each call is an argument, a list of replies, so that short transfers, EINTR and
--   ESPIPE can occur in any order. Running out of replies is an outcome of its own, `waiting`, and so
--   is a failed assertion, `aborts`. The loop of `pipe_read` runs on as much fuel as there are bytes to
--   pass, and each round passes one at least.
-- Encoding.antt: the codecs and `convert_string` of src/encoding.c on lists of bytes. The loops run on fuel,
--   the length of the string, and the decoders consume a byte at least.
-- Header.antt: src/header.c, include/wimlib/header.h and the resource headers of include/wimlib/resource.h.
--   It reads and writes through FileIo.
-- Lzx.antt: src/lzx_common.c without the SSE2 and AVX2 scans: the E8 filter, whose words are 32-bit
--   two's complement, the offset slots, the window orders and the size of the main alphabet.
-- TaggedItems.antt: src/tagged_items.c. The items are the bytes of `i_extra->data`, a pointer to an item's
--   data is an offset, and u32 arithmetic is taken modulo 2^32. A failed assertion and a store behind
--   the end of the memory are outcomes of their own. The loops run on fuel, one more than the bytes
--   there are, and each round passes or removes 8 bytes at least.
--   TaggedItems.Unix is the UNIX metadata in one of them.
-- Timestamp.antt: src/timestamp.c with a 64-bit `time_t`, 64-bit arithmetic written out.
-- Pattern.antt: src/pattern.c and the basename of src/paths.c. `totlower` and the default case sensitivity
--   are parameters. The loop over the components runs on fuel, one more than the pattern's length.
-- Integrity.antt: src/integrity.c, on FileIo and Header. SHA-1 is an interface, a context that takes bytes in
--   pieces; the progress callback and what `wim_reshdr_to_data` of src/resource.c returns are arguments.
--   The loop over the buffers of a chunk runs on fuel, one more than the bytes of the chunk.
-- Sha1.antt: src/sha1.c with the portable rounds, behind the interface that Integrity takes: a context is
--   given bytes in pieces. Words are 32-bit and the count of bytes is 64-bit, written out.
-- BlobTable.antt: the hash table of src/blob_table.c. A pointer to a descriptor is its address, and the
--   table holds what stands there; a bucket is a list. Whether CALLOC succeeds is an argument.
-- ParallelCompressor.antt: src/compress_parallel.c as a relation between states. A message is an index
--   into `msgs`; the caller and the threads make their steps in any order, and each operation on a queue
--   is one step, since the source makes it under the queue's lock. `wimlib_compress` is a parameter.
--   A step does not say how many threads there are; what holds of every state that is reached holds for
--   any number. ParallelCompressor.Start starts the threads, and ParallelCompressor.Progress bounds by
--   their number the messages at work.
--   The loop of the sizing runs on fuel, 18 more than the threads, and each round takes a number down.
-- SerialCompressor.antt: src/compress_serial.c in the same way.
-- Security.antt: the table of security descriptors of src/security.c as bytes. The buffer that is written
--   has an address, since the padding goes up to one that 8 divides. Which of the allocations succeed is
--   an argument. The set of descriptors takes its tree by an interface, which Security.Tree
--   fills with AvlTree.
-- AvlTree.antt: src/avl_tree.c and include/wimlib/avl_tree.h. A node's children are trees, and the parent
--   pointers up to the root are a list of frames; keys and values stand for the items that hold the nodes.
--   The loops go down or up one level each; a traversal runs on fuel, as much as there are items.
-- Huffman.antt: `make_canonical_huffman_code` of src/compress_common.c from the sorted symbols on, with
--   `build_tree`, `compute_length_counts` and `gen_codewords`, on the array of packed entries.
--   Unsigned frequencies, counts and codewords are taken modulo 2^32. Each loop runs as often as the
--   source's, and the search for a shorter length goes down from the longest one.
-- Common.antt: tests, lists, integers, little-endian bytes and bit operations that the parts share.
-- Each part has a module Tests with the theorems at concrete inputs.
--
-- MALLOC and REALLOC are parameters, Booleans or functions into them. Not modelled: the compression
-- formats and the sort of the symbols before a Huffman code, with the assertions before it, the blob table on
-- disk, the metadata tree, image operations and XML, and whatever calls the operating system beyond the
-- replies above. What a file holds after a failed write is not modelled either.
pub mod AvlTree
pub mod BlobTable
pub mod Common
pub mod Encoding
pub mod Error
pub mod FileIo
pub mod Header
pub mod Huffman
pub mod Integrity
pub mod Lzx
pub mod ParallelCompressor
pub mod Pattern
pub mod Security
pub mod SerialCompressor
pub mod Sha1
pub mod TaggedItems
pub mod Timestamp
