-- ===== src/Virtio/Block/Request.antt =====
-- `virtio_block_recv_request`: requests of the guest.
use mvvmm.Base.{
  ℕ, ◌+◌, ◌-◌, ◌/◌, ◌^◌, ◌≤◌, ◌<◌, ◌≡◌, ◌≢◌, refl, false, true, List, [], ◌∷◌, take, drop, sub32,
  slt, is_positive, done, success, arith, replicate, ne→==,
}
use mvvmm.Virtio.Device.{QueueState, Machine}
use mvvmm.Virtio.Chain.{VirtioDesc}
use mvvmm.Virtio.Chain.Sizes.{total_len}
use mvvmm.Virtio.Chain.Data.{data_of}
use mvvmm.Virtio.Chain.Locate.{Front}
use mvvmm.Virtio.Chain.Rest.{read-header, read-rest}
use mvvmm.Virtio.Queue.{queue_at}
use mvvmm.Virtio.Block.{
  BlockDevice, request, header_size, header_type, header_sector, blk_t_in, blk_t_out, sector_size,
  zeroed, sectors, submitted, recv_in, recv_out, virtio_block_recv_request,
}

pub zeroed-small : (n : ℕ) → n < 2 ^ 31 → zeroed n ≡ done (replicate n 0)
unfolding zeroed
zeroed-small n h = ground arith

pub sectors-small : (n : ℕ) → n < 2 ^ 31 → sectors n ≡ n / sector_size
unfolding sectors
sectors-small n h = ground arith

-- The 16 bytes of a request's header, as the guest has them in memory.
abbrev pub header_of : {B : Type 0} → Machine B → List VirtioDesc → List ℕ
header_of s ds = take header_size (data_of s.mem ds)

module _ {B : Type 0} (disk : BlockDevice B) (s : Machine B) (q : QueueState) (i idx : ℕ)
    (d : VirtioDesc) (ds : List VirtioDesc) where
  -- Where the readable part of a request's chain holds a header of type VIRTIO_BLK_T_OUT and `n`
  -- more bytes, `n` at least 1, and the chain has room for the status, the disk is asked to write
  -- exactly those bytes, `n / 512` sectors, at the sector of the header. If it takes the request,
  -- nothing else changes, and the handler returns with success.
  pub virtio_block_recv_request-writes :
      (n write_size : ℕ) (b : B)
      → s.mem.size < 2 ^ 64
      → queue_at s.dev i ≡ done q
      → Front false s.mem q idx d ds
      → 0 < n
      → header_size + n ≡ total_len (d ∷ ds)
      → total_len (d ∷ ds) < 2 ^ 31
      → header_type (header_of s (d ∷ ds)) ≡ blk_t_out
      → 0 < write_size
      → write_size < 2 ^ 31
      → disk.write_async s.backend
          (header_sector (header_of s (d ∷ ds)))
          (drop header_size (data_of s.mem (d ∷ ds)))
          (n / sector_size)
          (request blk_t_out [] 0 i idx)
        ≡ (success, b)
      → virtio_block_recv_request disk s i idx (total_len (d ∷ ds)) write_size
        ≡ done (success, record s { backend = b })
  unfolding virtio_block_recv_request recv_out submitted
  virtio_block_recv_request-writes n write_size b bounded e front pos all small type room ints
        taken =
      let len : sub32 (total_len (d ∷ ds)) header_size ≡ n = omega arith in
      let fits : slt write_size 1 ≡ false = ground arith in
      let some_data : is_positive n ≡ true = ground arith in
      rw
        (
          e,
          read-header s.mem bounded q idx d ds front header_size (omega arith) (omega arith) small,
          type,
          fits,
          len,
          some_data,
          e,
          zeroed-small n (omega arith),
          read-rest s.mem bounded q idx d ds front header_size n pos all small,
          sectors-small n (omega arith),
          taken,
        )
        refl

  -- A request whose 16 bytes of header are readable and have another type than VIRTIO_BLK_T_IN and
  -- VIRTIO_BLK_T_OUT leaves everything as it was, the used ring and the interrupts included, and
  -- the handler returns with success.
  pub virtio_block_recv_request-unsupported :
      (read_size write_size : ℕ)
      → s.mem.size < 2 ^ 64
      → queue_at s.dev i ≡ done q
      → Front false s.mem q idx d ds
      → header_size ≤ total_len (d ∷ ds)
      → total_len (d ∷ ds) < 2 ^ 31
      → header_type (header_of s (d ∷ ds)) ≢ blk_t_in
      → header_type (header_of s (d ∷ ds)) ≢ blk_t_out
      → virtio_block_recv_request disk s i idx read_size write_size ≡ done (success, s)
  unfolding virtio_block_recv_request
  virtio_block_recv_request-unsupported read_size write_size bounded e front enough small not_in
        not_out =
      rw
        (
          e,
          read-header s.mem bounded q idx d ds front header_size (omega arith) enough small,
          ne→== not_in,
          ne→== not_out,
        )
        refl

  -- Where the readable part of a request's chain holds a header of type VIRTIO_BLK_T_IN, the disk is
  -- asked to fill a zeroed buffer of `write_size` bytes, which the writable part has, but for the
  -- last: the sectors that fit before it, from the sector of the header on. If it takes the request,
  -- nothing else changes, and the handler returns with success.
  pub virtio_block_recv_request-reads :
      (read_size write_size : ℕ) (b : B)
      → s.mem.size < 2 ^ 64
      → queue_at s.dev i ≡ done q
      → Front false s.mem q idx d ds
      → header_size ≤ total_len (d ∷ ds)
      → total_len (d ∷ ds) < 2 ^ 31
      → header_type (header_of s (d ∷ ds)) ≡ blk_t_in
      → 0 < write_size
      → write_size < 2 ^ 31
      → disk.read_async s.backend
          (header_sector (header_of s (d ∷ ds)))
          ((write_size - 1) / sector_size)
          (request blk_t_in (replicate write_size 0) write_size i idx)
        ≡ (success, b)
      → virtio_block_recv_request disk s i idx read_size write_size
        ≡ done (success, record s { backend = b })
  unfolding virtio_block_recv_request recv_in submitted
  virtio_block_recv_request-reads read_size write_size b bounded e front enough small type room ints
        taken =
      let len : sub32 write_size 1 ≡ write_size - 1 = omega arith in
      rw
        (
          e,
          read-header s.mem bounded q idx d ds front header_size (omega arith) enough small,
          type,
          zeroed-small write_size ints,
          len,
          sectors-small (write_size - 1) (omega arith),
          taken,
        )
        refl
