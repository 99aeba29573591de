-- ===== src/Tests/Config.antt =====
-- The configuration of an environment that sets two sizes.
use fusey.Base.{ℕ, false, none, [], ◌∷◌, ◌≡◌, refl, bytes_beq}
use fusey.Base.Word.{le64}
use fusey.Index.Tree
use fusey.Chunks.Ids.{print, scan_digits}
use fusey.Fuse.Replies.{crash}
use fusey.Fuse.Nodes.{statfs}
use fusey.Config.{
  Parsers, Environment, Config, Loaded, loaded, failed, parse_int, parse_bool, parse_env,
  load_config, chunk_size, block_size,
}
use fusey.Config.Loading.{statfs-zero_block}

unfoldable configs : Unit {0}
unfolding bytes_beq le64 parse_int parse_bool parse_env load_config print scan_digits
configs = tt

abbrev parsers : Parsers
parsers = record {
  Float = ℕ;
  default_threshold = 3;
  parse_float = λ s. none;
  parse_duration = λ s. none;
}

abbrev environment : Environment
environment chunk_size = b'8' ∷ []
environment block_size = b'0' ∷ []
environment _ = []

abbrev config_of : Loaded (Config parsers) → Config parsers → Config parsers
config_of (loaded c) d = c
config_of (failed e) d = d

abbrev blank : Config parsers
blank = record {
  chunk_size = 0;
  block_size = 0;
  max_fs_size = 0;
  cache_dir = [];
  bucket = [];
  endpoint = [];
  region = [];
  access_key = [];
  secret_key = [];
  force_path_style = false;
  prefix = [];
  broker_url = [];
  broker_auth_header = [];
  broker_auth_value = [];
  compaction_threshold = 0;
  persist_interval = 0;
  allow_other = false;
}

abbrev config : Config parsers
config = config_of (load_config parsers environment) blank

statfs-zero_block_example : statfs 1000 (Tree.new config.block_size 7) ≡ crash
unfolding configs
statfs-zero_block_example = statfs-zero_block parsers environment config refl 1000 7 refl
