-- ===== src/Compaction/Defs.antt =====
-- The names of the chunks that Compact writes.
use fusey.Base.{ℕ, Bytes, [], ◌∷◌, ◌++◌}
use fusey.Chunks.Ids.{decimal}

-- "compacted-"
abbrev pub compacted_id_prefix : Bytes
compacted_id_prefix = b'c' ∷ b'o' ∷ b'm' ∷ b'p' ∷ b'a' ∷ b'c' ∷ b't' ∷ b'e' ∷ b'd' ∷ b'-' ∷ []

-- newOutput: the ID from the clock, in nanoseconds, and the number of the output.
unfoldable pub compacted_id : ℕ → ℕ → Bytes
compacted_id nanos seq = compacted_id_prefix ++ decimal nanos ++ b'-' ∷ decimal seq
