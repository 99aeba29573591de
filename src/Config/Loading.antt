-- ===== src/Config/Loading.antt =====
-- What a configuration that is loaded satisfies.
use fusey.Base.{
  ℕ, zero, suc, ◌+◌, ◌/◌, ◌%◌, ◌^◌, ◌<◌, Bytes, true, false, some, [], ◌∷◌, ◌≡◌, refl, arith,
}
use fusey.Base.Word.{le64}
use fusey.Index.Tree
use fusey.Chunks.Ids.{print, decimal, starts_with_digit, scan_digits}
use fusey.Chunks.Ids.RoundTrip.{scan-print, print-starts_with_digit}
use fusey.Fuse.Replies.{crash}
use fusey.Fuse.Nodes.{statfs}
use fusey.Config.Defs.{
  Parsers, Environment, Config, loaded, parse_int, parse_env, parse_int32, load_config, all_digits,
  chunk_size, block_size,
}

all_digits-print :
    (fuel n : ℕ) (rest : Bytes)
    → n < fuel
    → all_digits rest ≡ true
    → all_digits (print fuel n rest) ≡ true
unfolding print
all_digits-print zero n rest h d = elim h [ ]
all_digits-print (suc fuel) n rest h d =
    ground (arith, all_digits-print fuel (n / 10) ((48 + n % 10) ∷ rest))

-- Parsing the digits of a number below 2 ^ 63 as an int64 gives the number back.
pub parse_int-decimal : (n : ℕ) → n < 2 ^ 63 → parse_int 64 (decimal n) ≡ some n
unfolding parse_int
parse_int-decimal n h =
    elim-digits (decimal n) (all_digits-print (suc n) n [] (omega arith) refl)
      (print-starts_with_digit (suc n) n [] (omega arith)) (scan-print (suc n) n [] (omega arith))
  where
    elim-digits :
        (s : Bytes)
        → all_digits s ≡ true
        → starts_with_digit s ≡ true
        → scan_digits s 0 ≡ scan_digits [] n
        → parse_int 64 s ≡ some n
    elim-digits [] all starts value = absurd (ground arith)
    elim-digits (c ∷ s) all starts value = unfold parse_int scan_digits in ground arith

module _ (P : Parsers) (env : Environment) (cfg : Config P)
    (load : load_config P env ≡ loaded cfg) where
  -- The capacity is positive.
  pub load-max_fs_size : le64 cfg.max_fs_size 0 ≡ false
  unfolding load_config
  load-max_fs_size = ground arith

  -- The variables that Load takes first.
  chunks_parsed : parse_env P env chunk_size (parse_int 64) 67108864 ≡ loaded cfg.chunk_size
  unfolding load_config
  chunks_parsed = ground arith

  blocks_parsed : parse_env P env block_size (parse_int32 P) 4096 ≡ loaded cfg.block_size
  unfolding load_config
  blocks_parsed = ground arith

  -- Of a configuration that is loaded, the chunk size is the number whose decimal digits
  -- FUSEY_CHUNK_SIZE has, if it is below 2 ^ 63.
  pub load-chunk_size : (n : ℕ) → env chunk_size ≡ decimal n → n < 2 ^ 63 → cfg.chunk_size ≡ n
  unfolding parse_env
  load-chunk_size n set h = ground (
    arith,
    chunks_parsed,
    parse_int-decimal n h,
    print-starts_with_digit (suc n) n [] (omega arith),
  )

  -- If the configuration is loaded with a FUSEY_BLOCK_SIZE of 0, Statfs on the new index crashes
  -- the daemon.
  pub statfs-zero_block :
      (total now : ℕ)
      → env block_size ≡ b'0' ∷ []
      → statfs total (Tree.new cfg.block_size now) ≡ crash
  unfolding parse_env parse_int statfs scan_digits Tree.new
  statfs-zero_block total now set =
      let zero_size : cfg.block_size ≡ 0 = ground (arith, blocks_parsed) in rw zero_size refl
