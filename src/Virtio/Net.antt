-- ===== src/Virtio/Net.antt =====
-- The network device (virtio.c): packets from the guest, and packets to it. What takes the guest's
-- packets, `write_packet_to_ether` of `struct ether_device`, is the parameter `write_packet`.
pub mod Transmit
pub mod Validity
pub mod Deliver
pub mod Copies
use mvvmm.Base.{
  ℕ, ◌+◌, Bool, true, false, not, Option, none, some, List, ◌==◌, if◌then◌else◌, u32, u64, sub32,
  slt, replicate, Outcome, done, ◌>>=◌, Code, success, failure,
}
use mvvmm.Virtio.Memory.{read16}
use mvvmm.Virtio.Device.{Machine}
use mvvmm.Virtio.Chain.{get_desc_rw_size, memcpy_from_queue, memcpy_to_queue}
use mvvmm.Virtio.Queue.{Recv, queue_at, avail_entry, advance_avail, virtio_consume_desc}
use mvvmm.Virtio.Block.{zeroed}

-- `sizeof(struct virtio_io_net_header)`, which is packed.
abbrev pub header_size : ℕ
header_size = 12

module _ {B : Type 0} where
  unfoldable pub virtio_net_recv_request : (B → List ℕ → ℕ → B) → Recv B
  virtio_net_recv_request write_packet s queue_idx desc_idx read_size write_size = do
    q ← queue_at s.dev queue_idx
    (code, _, h) ← memcpy_from_queue s.mem (replicate header_size 0) q desc_idx 0 header_size
    elim code [
      | failure ↦ done (success, s)
      | success ↦ do
        let len = sub32 read_size header_size
        buf ← zeroed len
        (_, _, packet) ← memcpy_from_queue s.mem buf q desc_idx header_size len
        s' ←
            virtio_consume_desc (record s { backend = write_packet s.backend packet len }) queue_idx
              desc_idx 0
        done (success, s')
    ]

  unfoldable pub virtio_net_can_write_packet : Machine B → Outcome Bool
  virtio_net_can_write_packet s = do
    q ← queue_at s.dev 0
    if q.ready == 0 then done false else do
      avail_idx ← read16 s.mem (u64 (q.avail_addr + 2))
      done (not (q.last_avail_idx == avail_idx))

  -- The packet into the chain of `desc_idx`, behind a header of zeros.
  unfoldable pub put_packet : Machine B → ℕ → List ℕ → ℕ → Outcome (Machine B)
  put_packet s desc_idx buf buf_len = do
    q ← queue_at s.dev 0
    (_, m1, _) ← memcpy_to_queue s.mem q desc_idx 0 (replicate header_size 0) header_size
    (_, m2, _) ← memcpy_to_queue m1 q desc_idx header_size buf buf_len
    s' ← virtio_consume_desc (record s { mem = m2 }) 0 desc_idx (u32 (header_size + buf_len))
    advance_avail s' 0

  unfoldable pub virtio_net_write_packet : ℕ → Machine B → List ℕ → ℕ → Outcome (Machine B)
  virtio_net_write_packet chain_fuel s buf buf_len = do
    q ← queue_at s.dev 0
    if q.ready == 0 then done s else do
      avail_idx ← read16 s.mem (u64 (q.avail_addr + 2))
      if q.last_avail_idx == avail_idx then done s else do
        desc_idx ← avail_entry s.mem q
        sizes ← get_desc_rw_size chain_fuel s.mem q desc_idx
        elim sizes [
          | none ↦ done s
          | some (read_size, write_size) ↦
              if slt write_size (u32 (header_size + buf_len))
              then done s
              else put_packet s desc_idx buf buf_len
        ]
