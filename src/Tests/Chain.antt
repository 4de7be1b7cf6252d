-- ===== src/Tests/Chain.antt =====
-- Runs on descriptor chains.
use mvvmm.Base.{
  ◌≡◌, refl, [], ◌∷◌, done, out_of_fuel, success, replicate, splice, take, drop, arith, ◌==◌,
  if◌then◌else◌,
}
use mvvmm.Guest.{GuestMem}
use mvvmm.Virtio.Chain.{memcpy_from_queue, get_desc_rw_size, fields, has_next, is_write}
use mvvmm.Virtio.Chain.Layout.{desc_at}
use mvvmm.Virtio.Chain.Sizes.{
  total_len, chain_sizes, get_desc_rw_size-chain_sizes, IsEndless, get_desc_rw_size-endless,
}
use mvvmm.Virtio.Chain.Data.{data_of}
use mvvmm.Virtio.Chain.Gather.{memcpy_from_queue-data_of}
use mvvmm.Tests.Fixture.{mem, queue, desc0, desc1, desc2, chain, front}

-- A window over the end of the first buffer.
memcpy_from_queue-data_of_example :
    memcpy_from_queue mem (replicate 6 0) queue 0 18 6
    ≡ done (
      success,
      mem,
      splice (replicate 6 0) 0 (take 6 (drop 18 (data_of mem (desc0 ∷ desc1 ∷ [])))),
    )
unfolding total_len
memcpy_from_queue-data_of_example =
    memcpy_from_queue-data_of mem (omega arith) queue (replicate 6 0) 0 18 6 desc0 (desc1 ∷ [])
      front (omega arith) (omega arith) (omega arith) (omega arith) (omega arith) (omega arith)

get_desc_rw_size-chain_sizes_example :
    get_desc_rw_size 3 mem queue 0 ≡ done (chain_sizes (desc0 ∷ desc1 ∷ desc2 ∷ []))
get_desc_rw_size-chain_sizes_example =
    get_desc_rw_size-chain_sizes mem (omega arith) queue 3 0 desc0 (desc1 ∷ desc2 ∷ []) chain
      (omega arith)

-- One descriptor that is its own successor: its flags are VIRTQ_DESC_F_NEXT.
abbrev circle : GuestMem
circle = record { size = 4096; byte = λ p. if p == 12 then 1 else 0 }

circle-IsEndless : IsEndless circle (omega arith) queue (λ i. i ≡ 0)
unfolding desc_at fields is_write has_next
circle-IsEndless = record {
  in_table = λ i e. rw e (omega arith, omega arith);
  readable = λ i e. rw e refl;
  goes_on = λ i e. rw e refl;
  stays = λ i e. rw e refl;
}

get_desc_rw_size-endless_example : get_desc_rw_size 1000 circle queue 0 ≡ out_of_fuel
get_desc_rw_size-endless_example =
    get_desc_rw_size-endless circle (omega arith) queue (λ i. i ≡ 0) 1000 0 circle-IsEndless refl
