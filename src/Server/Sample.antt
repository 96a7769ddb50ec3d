-- ===== src/Server/Sample.antt =====
-- A small server for the tests: a device as a number of bytes, no items, and one PUT.
use olivehc.Prelude.{
  ℕ, ◌+◌, ◌-◌, true, false, none, [], ◌∷◌, replicate, leb, if◌then◌else◌, refl, Bool-cases, inl,
  inr, Bytes, codes,
}
use olivehc.SizeClass.{ipbucket_block_size}
use olivehc.Hash.{HashId}
use olivehc.Http.Headers.{HttpRequest}
use olivehc.Server.{Blocks, finished, Item, Stats, Server, World}
use olivehc.Server.History.{Started}

-- A device as the number of its free bytes; nothing can make a block larger.
abbrev pub pool : Blocks
pool = record {
  D = ℕ;
  get_free_block = λ d h n.
      if leb (ipbucket_block_size n) d
      then (ipbucket_block_size n, d - ipbucket_block_size n)
      else (0, d);
  return_free_block = λ d h n bad. (ipbucket_block_size n, d + ipbucket_block_size n);
  device_deleted = λ d h. false;
  use_device = λ d h. d;
  leave_device = λ d h. d;
  extend_round = λ d target last. finished;
  cut_free_block = λ d h device n offset. (0, d);
  get_size = λ d h n. elim (Bool-cases (leb (ipbucket_block_size n) d)) [
    | inl t ↦ rw t (inr refl)
    | inr t ↦ rw t (inl refl)
  ];
  return_size = λ d h n bad. refl;
  cut_size = λ d h device n offset. inl refl;
}

abbrev pub no_stats : Stats
no_stats = record {
  gets = 0;
  hits = 0;
  passby_hits = 0;
  puts = 0;
  stores = 0;
  passby_stores = 0;
  deletes = 0;
}

abbrev pub idle : Server
idle = record {
  capacity = 100000;
  consumed = 0;
  content = 0;
  item_nr = 0;
  clear = 0;
  deleted = false;
  hash = record {
    buckets = replicate 16 [];
    bucket_size = 16;
    items = 0;
    prev_buckets = none;
    split = 0;
  };
  lru = [];
  passby_lru = [];
  passby_item_nr = 0;
  key_include_query = false;
  key_include_host = false;
  key_include_ohc_key = false;
  passby_enable = false;
  passby_begin_item_nr = 0;
  passby_begin_consumed = 0;
  passby_limit_nr = 0;
  passby_expire = 0;
  item_max_size = 0;
  expire_default = 60;
  expire_force = 0;
  total = no_stats;
  current = no_stats;
}

abbrev pub empty : World ℕ
empty = record {
  servers = λ i. idle;
  items = [];
  passbys = [];
  shared_lru = [];
  blocks = 50000;
  now = 1000;
}

pub empty-Started : Started empty
empty-Started = record {
  items = refl;
  consumed = λ i. refl;
  content = λ i. refl;
  item_nr = λ i. refl;
}

abbrev pub id_of : Bytes → HashId
id_of [] = record { low = 0; high = 0 }
id_of (c ∷ cs) = record { low = c; high = 1 }

abbrev pub a_put : HttpRequest
a_put = record {
  method = 2;
  content_length = 3;
  expire = 0;
  range_set = none;
  uri = codes "a";
  host = none;
  ohc_key = none;
  keepalive = true;
  put_headers = [];
  put_header_length = 50;
  http_code = 0;
}

abbrev pub an_item : Item
an_item = record {
  handle = 7;
  id = record { low = 97; high = 1 };
  server_index = 0;
  length = 53;
  headers_len = 50;
  expire = 2000;
  clear = 0;
  used = 1;
  putting = false;
  deleted = false;
  badblock = false;
}
