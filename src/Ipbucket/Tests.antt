-- ===== src/Ipbucket/Tests.antt =====
-- Runs of utils/ipbucket.h on three blocks, and the theorems at them.
use mathlib.Core.Option
use olivehc.Prelude.{ℕ, ◌+◌, ◌≡◌, refl, some, arith, ◌==◌, if◌then◌else◌}
use olivehc.SizeClass.{ipbucket_index, ipbucket_block_size, bit_highest}
use olivehc.Ipbucket.{
  Handle, Ipbucket, ipbucket_init, ipbucket_add, ipbucket_update, ipbucket_get, ipbucket_biggest,
}
use olivehc.Ipbucket.Filed.{
  Filed, Served, linked, init-Filed, add-Filed, update-Filed, ipbucket_get-Served,
}
use olivehc.Ipbucket.Count.{Biggest, linked-add, ipbucket_biggest-Biggest}

-- Block 1 has 4096 bytes, block 2 has 6000, every other 1024.
abbrev sizes : Handle → ℕ
sizes h = if h == 1 then 4096 else if h == 2 then 6000 else 1024

abbrev three_blocks : Ipbucket
three_blocks = ipbucket_add (ipbucket_add (ipbucket_add ipbucket_init 1 4096) 2 6000) 3 1024

three_blocks-Filed : Filed sizes three_blocks
three_blocks-Filed =
    add-Filed sizes _ 3 (omega arith)
      (add-Filed sizes _ 2 (omega arith) (add-Filed sizes _ 1 (omega arith) (init-Filed sizes)))

-- 3000 bytes are rounded to 3072, which block 1 holds and block 3 does not.
get_runs : Option.map (λ r. r.0) (ipbucket_get three_blocks 3000) ≡ some 1
unfolding ipbucket_init ipbucket_add ipbucket_index bit_highest ipbucket_block_size ipbucket_get
get_runs = refl

ipbucket_get-Served_example : Served sizes 3000 three_blocks (ipbucket_get three_blocks 3000)
ipbucket_get-Served_example =
    ipbucket_get-Served sizes three_blocks 3000 (omega arith) three_blocks-Filed

update-Filed_example : Filed sizes (ipbucket_update three_blocks 2 6000)
update-Filed_example = update-Filed sizes three_blocks 2 (omega arith) three_blocks-Filed

linked-add_example :
    linked 4 (ipbucket_add three_blocks 4 1024) ≡ linked 4 three_blocks + (if 4 == 4 then 1 else 0)
linked-add_example = linked-add three_blocks 4 1024 4 three_blocks-Filed.width

ipbucket_biggest-Biggest_example : Biggest sizes 0 (ipbucket_biggest three_blocks) three_blocks
ipbucket_biggest-Biggest_example = ipbucket_biggest-Biggest sizes three_blocks three_blocks-Filed

biggest_runs : ipbucket_biggest three_blocks ≡ some 2
unfolding ipbucket_init ipbucket_add ipbucket_index bit_highest ipbucket_block_size ipbucket_biggest
biggest_runs = refl
