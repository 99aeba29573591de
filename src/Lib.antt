-- ===== src/Lib.antt =====
-- fusey: a FUSE file system that keeps its files in chunks of an object store.
--
-- The parts of the program and the files that model them:
-- - internal/index/types.go and index.go, the in-memory index of inodes, directory entries and
--   extents: Index/Types (Inode, Extent, Index), Index/Tree (New, CreateInode, AddDirEntry,
--   RemoveDirEntry, Rename, Lookup, GetInode, Readdir, GetParentIno), Index/Attrs (SetAttr, the
--   symlinks, the extended attributes, UsedBytes), Index/Overwrite (AppendExtent, WriteExtent,
--   GetExtents, LiveExtents, RemapExtents), Index/Snapshots (Snapshot, FromSnapshot).
-- - internal/chunks: Chunks/Store (store.go, the object store, a parameter), Chunks/Ids (the IDs of
--   chunks), Chunks/ChunkStore (chunk_store.go: RecoverNextSeq, Append, Read, Seal, FlushActive and
--   the compactor's operations), Chunks/Cache (cache.go) and Chunks/Flight (cache.go by goroutines that
--   are interleaved).
-- - internal/fuse/fs.go: Fuse/Files, Write and Read of a file handle, Fuse/Syncing, its
--   Fsync, and Fuse/Nodes, the handlers of Node (Attr: attributes, Statfs, extended attributes;
--   Defs: the tree; Requests: the requests that change the tree as one step on the index). Fuse/Session
--   puts the requests together: Step and Reach are the runs, Contents is the abstract store of bytes,
--   and Op what a request asks of it.
-- - internal/index/persist.go: Persist, the wire form of the index, and Persist/Saving (Save, Load,
--   Marshal, Unmarshal).
-- - cmd/fusey/main.go: Daemon (buildPersistFn, loadIndex and the end of mustBuildStore) and
--   Daemon/Commands (main, mustLoadConfig, runUnmount, and a tick of runDaemon).
-- - internal/chunks/broker.go: Chunks/Broker (Defs: withRetry and the HTTP statuses; Requests: the
--   operations).
-- - internal/chunks/s3.go: Chunks/S3 (Defs: the operations), and Daemon/Bucket, the store that the daemon
--   takes it for.
-- - internal/chunks/local.go: Chunks/Local (Defs: the operations).
-- - internal/config/config.go: Config (Load and its parsers).
-- - internal/compaction/compactor.go: Compaction (Cycle: Compact; Defs: the names of its chunks).
--
-- How they interact: Write of a file handle checks the capacity against UsedBytes, gives the data to
-- Append of the chunk store, which may seal the active chunk to the object store, and hands the
-- extent that it gets to WriteExtent of the index. Read looks the extents up and copies their bytes
-- from the active chunk, the cache or the object store. The function of buildPersistFn saves the
-- index, flushes the active chunk and then writes the encoded index to the object store, from which
-- loadIndex and RecoverNextSeq start again. Compact moves live extents to new chunks by RemapExtents
-- and persists the index before it deletes the old chunks.
--
-- How the code is modelled:
-- - Go's maps are association lists (Map), of which operations read the first entry of a key. The
--   order of the list stands for one order of Go's range.
-- - An int64 is its bit pattern, a number below 2 ^ 64, and arithmetic on it wraps (Base/Word); a
--   uint32 is a number below 2 ^ 32. Strings and byte slices are lists of numbers.
-- - A method is a function from the state to the state. Results are `ok`, `err` or `panic`; a write
--   to a nil map and a read through a nil pointer are a panic. The time is an argument.
-- - The object store is a record of its five operations on a state of its own. IsLawful states what
--   the comments of the interface promise of Put, GetRange and Size, IsComplete what they promise of
--   Delete and List. Its operations may fail.
-- - Whether the disk takes a file of the cache depends on its name, and is the same throughout a run.
--   The number of the next chunk does not wrap.
-- - WriteExtent builds its new list in the array of the old one, and that is what the model does:
--   Survivors holds the slots that are written, and whether append has moved to a new array. The
--   capacity that the array has to spare is the argument `spare`.
-- - The CBOR library, the HTTP client, the AWS client, JSON, the parsing of floats and durations, the
--   clock and the comparison of floats are parameters. What is used of them is a named hypothesis:
--   Codec and IsFaithful, Http and IsProtocol, Client, IsS3 and IsPaged, IsRawLawful. The CBOR library
--   decodes by default only texts that are valid UTF-8, and lists and maps of at most 131072 elements:
--   IsStorable says that an index keeps to this.
-- - The disk is its two snapshot files, with its answers as arguments. Where a step of the daemon ends
--   it by log.Fatal, the result is `none`.
-- - A file system is readable (IsReadable) when its extents are sound, the cache agrees with the store
--   and every byte of every extent is stored. It is healthy (IsHealthy) when the link counts are exact, too.
-- - Loops are structural recursion; that of withRetry is on the attempts that are left. The fuel
--   of `print`, the digits of a number, is n + 1 for n, since each step divides it by ten; that of
--   `list_pages` is the pages that List may take, and one more than the keys is enough.
--
-- Not modelled: the mutexes but that of the cache (each operation is one step, as under its lock), the
-- validity times of replies, Flush, which does nothing, mounting, the pipe to the parent and the clock
-- of the ticker, which are I/O, the JSON and CBOR encodings, which are libraries', and broker/main.py.
pub mod Base
pub mod Map
pub mod Index
pub mod Chunks
pub mod Fuse
pub mod Persist
pub mod Compaction
pub mod Config
pub mod Daemon
pub mod Tests
