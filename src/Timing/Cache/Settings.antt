-- ===== src/Timing/Cache/Settings.antt =====
-- timing/cache/cache.go: the configurations, the results and the statistics.
use m1sim.Base.{ℕ, Bool, ◌*◌}

pub record Config : Type 0 where
  pub size : ℕ
  pub associativity : ℕ
  pub block_size : ℕ
  pub hit_latency : ℕ
  pub miss_latency : ℕ

abbrev pub default_l1i_config : Config
default_l1i_config = record {
  size = 192 * 1024;
  associativity = 6;
  block_size = 64;
  hit_latency = 1;
  miss_latency = 12;
}

abbrev pub default_l1d_config : Config
default_l1d_config = record {
  size = 128 * 1024;
  associativity = 8;
  block_size = 64;
  hit_latency = 4;
  miss_latency = 12;
}

abbrev pub default_l2_config : Config
default_l2_config = record {
  size = 12 * 1024 * 1024;
  associativity = 16;
  block_size = 128;
  hit_latency = 12;
  miss_latency = 150;
}

abbrev pub default_l2_per_core_config : Config
default_l2_per_core_config = record {
  size = 512 * 1024;
  associativity = 8;
  block_size = 128;
  hit_latency = 12;
  miss_latency = 150;
}

pub record AccessResult : Type 0 where
  pub hit : Bool
  pub latency : ℕ
  pub word : ℕ
  pub evicted : Bool
  pub evicted_addr : ℕ

pub record Statistics : Type 0 where
  pub reads : ℕ
  pub writes : ℕ
  pub hits : ℕ
  pub misses : ℕ
  pub evictions : ℕ
  pub writebacks : ℕ

abbrev pub no_statistics : Statistics
no_statistics = record {
  reads = 0;
  writes = 0;
  hits = 0;
  misses = 0;
  evictions = 0;
  writebacks = 0;
}
