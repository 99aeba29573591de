-- ===== src/Tests/Daemon.antt =====
-- A daemon that persists a file, and another that starts on its object store.
use native.Mathlib.Decide.{ℕ_discrete}
use mathlib.Core.Path.{subst}
use fusey.Base.{
  ◌⊎◌, ap, ℕ, Bytes, true, false, Option, none, some, [], ◌∷◌, ◌≡◌, refl, arith, Result, ok, err,
  ◌==◌, bytes_key, nat_key, bytes_beq_iff, object_not_found, disk_failure, bytes_beq,
}
use fusey.Map.{Map, lookup, insert, lookup-insert}
use fusey.Index.Types.{Index}
use fusey.Index.Links.{LinksAreExact}
use fusey.Index.Links.Unchanged.{write_extent-LinksAreExact}
use fusey.Index.Snapshots.{
  snapshot, all_entries, entries_of, from_snapshot, rebuild, add_tables, is_dirty, mark_clean,
  is_remote_dirty, mark_remote_clean,
}
use fusey.Persist.{
  WireSnapshot, to_wire_snapshot, from_wire_snapshot, to_wire_map, to_wire_extents, to_wire_extent,
  to_wire_inode, to_wire_entry, from_wire_map, from_wire_extent, from_wire_inode, from_wire_entry,
  parse_chunk_seq, scan_uint32,
}
use fusey.Persist.Saving.{Codec, Disk, DiskReplies, save, load, marshal, unmarshal, write_snapshot}
use fusey.Persist.Saving.RoundTrip.{
  IsFaithful, SameContents, AreNumbered, IsStorable, SameWire, load-save, save_fail,
}
use fusey.Chunks.Ids.{chunk_id, cut_prefix, scan_digits, skip_blanks, scan_int8}
use fusey.Chunks.Ids.RoundTrip.{chunk_id-injective}
use fusey.Chunks.Cache.{new_cache}
use fusey.Chunks.Flushing.{IsFlushed}
use fusey.Chunks.ChunkStore
use fusey.Chunks.ChunkStore.{ChunkStore, flush_active, recover_next_seq}
use fusey.Chunks.AppendOnly.{byte_at, chunk_byte}
use fusey.Index.Files.{file_place}
use fusey.Fuse.Replies.{done}
use fusey.Fuse.Files.{Fusey}
use fusey.Fuse.Syncing.{fsync, after_save, fsync_done}
use fusey.Fuse.Writing.{stored_byte}
use fusey.Daemon.{
  ObjectStore, Daemon, persist, persist_local, persist_chunks, persist_remote, put_index,
  is_missing, load_index, load_remote, build_store,
}
use fusey.Daemon.Persisting.{IsRawLawful, persist-stores, persist-completes}
use fusey.Daemon.Restarting.{restart-keeps}
use fusey.Tests.Shelf.{shelf, on_shelf, shelf-IsLawful, hello}
use fusey.Tests.Samples.{program, with_file, with_file-LinksAreExact}
use fusey.Tests.Reads.{hello_file}

unfoldable daemons : Unit {0}
unfolding program snapshot all_entries entries_of from_snapshot rebuild add_tables is_dirty
    mark_clean is_remote_dirty mark_remote_clean to_wire_snapshot from_wire_snapshot to_wire_map
    to_wire_extents to_wire_extent to_wire_inode to_wire_entry from_wire_map from_wire_extent
    from_wire_inode from_wire_entry parse_chunk_seq scan_uint32 save load marshal unmarshal
    write_snapshot cut_prefix scan_digits skip_blanks scan_int8 flush_active recover_next_seq
    ChunkStore.max_seq persist persist_local persist_chunks persist_remote put_index is_missing
    load_index load_remote build_store
daemons = tt

-- "index.cbor"
abbrev index_cbor : Bytes
index_cbor = b'i' ∷ b'n' ∷ b'd' ∷ b'e' ∷ b'x' ∷ b'.' ∷ b'c' ∷ b'b' ∷ b'o' ∷ b'r' ∷ []

abbrev found_or_missing : Option Bytes → Result Bytes
found_or_missing none = err object_not_found
found_or_missing (some d) = ok d

abbrev bucket : ObjectStore
bucket = record {
  base = shelf;
  put_raw = λ key d s. (insert key d s, true);
  get_raw = λ key s. found_or_missing (lookup key s);
  index_key = index_cbor;
}

no_chunk : (n : ℕ) → (index_cbor == chunk_id n) ≡ false
unfolding program
no_chunk n = refl

bucket-IsRawLawful : IsRawLawful bucket on_shelf on_shelf
bucket-IsRawLawful = record {
  raw-put_raw = λ key d s done. ground (arith, lookup-insert key key d s, bytes_beq_iff key key);
  object-put_raw = λ n d s. ground (arith, lookup-insert index_cbor (chunk_id n) d s, no_chunk n);
  get_raw-raw = λ key d r s held got. ground arith;
  get_raw-found = λ key d s e held got. ground arith;
}

abbrev wire_or : WireSnapshot → Result WireSnapshot → WireSnapshot
wire_or w (ok v) = v
wire_or w _ = w

abbrev blank : WireSnapshot
blank = record {
  inodes = [];
  dir_entries = [];
  extent_map = [];
  symlink_targets = [];
  xattrs = [];
  next_ino = 0;
}

-- A codec that takes one snapshot only, and writes it as one byte.
abbrev sample : WireSnapshot
sample = wire_or blank (to_wire_snapshot (snapshot hello_file.idx))

same_wire : Discrete WireSnapshot
same_wire = hlevel ℕ_discrete

abbrev one_byte : {w : WireSnapshot} → Dec (w ≡ sample) → Option Bytes
one_byte (yes e) = some (7 ∷ [])
one_byte (no n) = none

abbrev tape : Codec
tape = record {
  encode = λ w. one_byte (same_wire w sample);
  decode = λ d. some sample;
  takes_text = λ t. true;
}

SameWire-refl : (w : WireSnapshot) → SameWire w w
SameWire-refl w = record {
  inodes = λ ino. refl;
  dir_entries = refl;
  extent_map = λ ino. refl;
  symlink_targets = λ ino. refl;
  xattrs = λ ino name. refl;
  next_ino = refl;
}

only_sample :
    (w : WireSnapshot) (d : Bytes) (decided : Dec (w ≡ sample))
    → one_byte decided ≡ some d
    → SameWire w sample
only_sample w d (yes e) encoded = subst (SameWire w) e (SameWire-refl w)
only_sample w d (no n) encoded = absurd (ground arith)

taken : (decided : Dec (sample ≡ sample)) → one_byte decided ≡ some (7 ∷ [])
taken (yes e) = refl
taken (no n) = absurd (n refl)

tape-IsFaithful : IsFaithful tape
tape-IsFaithful = record {
  decode-encode =
      λ w d encoded within. (sample, refl, only_sample w d (same_wire w sample) encoded);
}

abbrev no_files : Disk
no_files = record { snapshot_file = none; temp_file = none }

abbrev good_disk : DiskReplies
good_disk = record { mkdir_done = true; left_behind = none; rename_done = true }

abbrev busy : Daemon bucket tape
busy = record { idx = hello_file.idx; cs = hello_file.cs; disk = no_files }

abbrev stored_objects : Map Bytes Bytes
stored_objects = (index_cbor, 7 ∷ []) ∷ (chunk_id 0, hello) ∷ []

abbrev idle : Daemon bucket tape
idle = record {
  idx = record hello_file.idx { dirty = false; remote_dirty = false };
  cs = record hello_file.cs { store = stored_objects; active_dirty = false };
  disk = record { snapshot_file = some (7 ∷ []); temp_file = none };
}

marshal_busy : marshal tape busy.idx ≡ ok (7 ∷ [])
unfolding daemons
marshal_busy = rw (marshal, taken (same_wire sample sample)) refl

busy_run : persist bucket tape good_disk busy ≡ (idle, ok tt)
unfolding daemons
busy_run =
    persist-completes bucket tape on_shelf on_shelf shelf-IsLawful bucket-IsRawLawful good_disk busy
      (7 ∷ []) refl refl marshal_busy refl refl refl refl refl

busy-LinksAreExact : LinksAreExact busy.idx
unfolding daemons
busy-LinksAreExact =
    write_extent-LinksAreExact 2 5 with_file busy.idx 0
      (record { chunk_id = chunk_id 0; chunk_offset = 0; len = 5; file_offset = 0 }) refl
      with_file-LinksAreExact

busy-AreNumbered : AreNumbered busy.idx
unfolding program
busy-AreNumbered = (((0, omega arith, refl), tt), tt)

busy-IsStorable : IsStorable tape busy.idx
unfolding daemons
busy-IsStorable = record {
  inodes = omega arith;
  dir_entries = (omega arith, tt);
  extents = (omega arith, (omega arith, tt));
  symlinks = (omega arith, tt);
  xattrs = (omega arith, tt);
}

busy-IsFlushed : IsFlushed shelf on_shelf busy.cs
unfolding program
busy-IsFlushed = record { stored = λ clean. absurd (ground arith) }

persist-stores_example :
    (d : Bytes) × (marshal tape busy.idx ≡ ok d)
    × (lookup index_cbor stored_objects ≡ some d)
    × ((chunk_byte shelf on_shelf (chunk_id 0) 4 busy.cs ≡ none)
        ⊎ (byte_at shelf on_shelf (lookup (chunk_id 0) stored_objects) 4
            ≡ chunk_byte shelf on_shelf (chunk_id 0) 4 busy.cs))
unfolding daemons
persist-stores_example =
    persist-stores bucket tape on_shelf on_shelf shelf-IsLawful bucket-IsRawLawful good_disk busy
      idle refl busy_run 0 4 busy-IsFlushed

only_chunk :
    (n : ℕ) (d : Bytes) → on_shelf (chunk_id n) stored_objects ≡ some d → chunk_id n ≡ chunk_id 0
unfolding lookup
only_chunk n d h = ground (arith, no_chunk n, bytes_beq_iff (chunk_id 0) (chunk_id n))

abbrev restored : Index
restored = from_snapshot (from_wire_snapshot sample) 4096

abbrev warm : (Index × Disk) × Result (Unit {0})
warm = save tape good_disk restored no_files

restarted : load_index bucket tape true good_disk no_files 4096 9 stored_objects ≡ some warm.0
unfolding load_index load_remote load unmarshal is_missing lookup bytes_beq
restarted = refl

abbrev new_chunks : ChunkStore shelf
new_chunks = record {
  store = stored_objects;
  max_chunk_size = 8;
  cache = some (new_cache (λ id. true));
  active_id = chunk_id 1;
  active_buf = [];
  active_dirty = false;
  next_seq = 2;
}

restart-keeps_example :
    SameContents busy.idx warm.0.0
    × ((stored_byte shelf on_shelf (file_place 2 busy.idx 4) busy.cs ≡ none)
        ⊎ (stored_byte shelf on_shelf (file_place 2 warm.0.0 4) new_chunks
            ≡ stored_byte shelf on_shelf (file_place 2 busy.idx 4) busy.cs))
unfolding daemons
restart-keeps_example =
    restart-keeps bucket tape on_shelf on_shelf shelf-IsLawful bucket-IsRawLawful tape-IsFaithful
      good_disk good_disk busy idle busy-IsFlushed busy-LinksAreExact busy-AreNumbered
      busy-IsStorable refl busy_run (index_cbor ∷ chunk_id 0 ∷ []) refl
      (λ n d h. ground (arith, only_chunk n d h, bytes_beq_iff (chunk_id n) (chunk_id 0)))
      (λ n d h. omega (arith, chunk_id-injective n 0 (only_chunk n d h))) true true (λ id. true)
      no_files warm.0.1 4096 9 8 warm.0.0 new_chunks refl restarted refl 2 4

load-save_example :
    (mark_clean busy.idx ≡ mark_clean busy.idx)
    × ((idx' : Index) × (load tape true idle.disk 4096 ≡ ok idx') × SameContents busy.idx idx')
load-save_example =
    load-save tape tape-IsFaithful busy.idx 4096 busy-LinksAreExact busy-AreNumbered busy-IsStorable
      good_disk no_files (mark_clean busy.idx) idle.disk
      (unfold save write_snapshot in rw (save, marshal_busy) refl)

-- The disk is full once the encoding is written in part.
abbrev full_disk : DiskReplies
full_disk = record { mkdir_done = true; left_behind = some (some []); rename_done = true }

save_fail_example : (busy.idx ≡ busy.idx) × (idle.disk.snapshot_file ≡ idle.disk.snapshot_file)
save_fail_example =
    save_fail tape full_disk busy.idx busy.idx idle.disk (record idle.disk { temp_file = some [] })
      (err disk_failure) (unfold save write_snapshot in rw (save, marshal_busy) refl)
      (λ h. ground arith)

-- Fsync stores the active chunk and saves the index.
abbrev synced : Fusey shelf
synced = record hello_file {
  idx = mark_clean hello_file.idx;
  cs = record hello_file.cs { store = (chunk_id 0, hello) ∷ []; active_dirty = false };
}

hello_saved :
    save tape good_disk hello_file.idx no_files ≡ ((mark_clean hello_file.idx, idle.disk), ok tt)
unfolding save write_snapshot
hello_saved = rw (save, marshal_busy) refl

synced_run : fsync shelf tape true good_disk hello_file no_files ≡ ((synced, idle.disk), done tt)
unfolding program fsync flush_active
synced_run = ap (after_save shelf tape (record hello_file { cs = synced.cs })) hello_saved

fsync_done_example :
    ((chunk_byte shelf on_shelf (chunk_id 0) 4 hello_file.cs ≡ none)
      ⊎ (byte_at shelf on_shelf (on_shelf (chunk_id 0) synced.cs.store) 4
          ≡ chunk_byte shelf on_shelf (chunk_id 0) 4 hello_file.cs))
    × ((idx : Index) × (load tape true idle.disk 4096 ≡ ok idx) × SameContents hello_file.idx idx)
unfolding program
fsync_done_example =
    fsync_done shelf tape on_shelf shelf-IsLawful tape-IsFaithful good_disk hello_file synced
      no_files idle.disk 4096 busy-LinksAreExact busy-AreNumbered busy-IsStorable busy-IsFlushed
      synced_run (chunk_id 0) 4
