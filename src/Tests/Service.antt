-- ===== src/Tests/Service.antt =====
-- Requests of the guest, to the file and back.
use mvvmm.Base.{
  ℕ, suc, ◌+◌, ◌*◌, ◌≤◌, ◌<◌, ◌≡◌, refl, true, false, List, [], ◌∷◌, ◌++◌, u64, take, splice, done,
  success, arith,
}
use mvvmm.Guest.{bytes_at, overlay}
use mvvmm.Virtio.Device.{Machine}
use mvvmm.Virtio.Chain.{is_write}
use mvvmm.Virtio.Chain.Sizes.{write_part, total_len}
use mvvmm.Virtio.Chain.Data.{data_of}
use mvvmm.Virtio.Queue.Complete.{IsReturned}
use mvvmm.Virtio.Block.{
  BlockRequest, request, blk_t_out, sector_size, virtio_block_req_end, virtio_block_recv_request,
}
use mvvmm.Disk.{Host, block_io_worker_fn, io_req, io_result, disk_image}
use mvvmm.Disk.Sectors.{sector_bytes}
use mvvmm.Disk.Service.{sector_of, payload, virtio_block-serves_write}
use mvvmm.Disk.Service.Read.{read_request, zeros, virtio_block-serves_read}
use mvvmm.Disk.Service.Written.{virtio_block-read_written}
use mvvmm.Tests.Fixture.{queue}
use mvvmm.Tests.Disk.{Bytes, ops, ops-IsFile, empty}
use mvvmm.Tests.Sectors.{s, desc0, desc1, desc2, desc3, writes_out, reads_in, pending0, pending2}

-- A pool that takes every request and counts them.
abbrev pool : Host ℕ
pool = record { malloc = λ b. true; thread_pool_run = λ b req. (success, suc b) }

abbrev file_byte : Bytes → ℕ → ℕ
file_byte f = f

abbrev write_req : BlockRequest
write_req = request blk_t_out [] 0 0 0

abbrev sector_bytes_of : List ℕ
sector_bytes_of = payload s (desc0 ∷ [])

-- The file behind the write.
abbrev written : Bytes
written =
    overlay empty (u64 (sector_of s (desc0 ∷ []) * sector_size))
      (take (sector_bytes 1) sector_bytes_of)

wrote :
    block_io_worker_fn ops empty
      (io_req true (sector_of s (desc0 ∷ [])) sector_bytes_of 1 write_req)
    ≡ (success, sector_bytes_of, written)
unfolding block_io_worker_fn io_req io_result
wrote = refl

full : 16 + 1 * sector_size ≡ total_len (desc0 ∷ [])
unfolding total_len
full = refl

status_room : 0 < total_len (write_part (desc0 ∷ desc1 ∷ []))
unfolding write_part is_write total_len
status_room = omega arith

sector_room : total_len (write_part (desc2 ∷ desc3 ∷ [])) ≡ 1 * sector_size + 1
unfolding write_part is_write total_len
sector_room = refl

header_room : 16 ≤ total_len (desc2 ∷ [])
unfolding total_len
header_room = omega arith

virtio_block-serves_write_example :
    (virtio_block_recv_request (disk_image pool) s 0 0 (total_len (desc0 ∷ [])) 1
      ≡ done (success, record s { backend = 1 }))
    × ((p : ℕ)
        → written p
          ≡ overlay empty (u64 (sector_of s (desc0 ∷ []) * sector_size)) sector_bytes_of p)
    × (t' : Machine ℕ) × (virtio_block_req_end s write_req success ≡ done t')
    × IsReturned s queue 0 1
        (write_part (desc0 ∷ desc1 ∷ []))
        (splice (data_of s.mem (write_part (desc0 ∷ desc1 ∷ []))) 0 (0 ∷ []))
        t'
virtio_block-serves_write_example =
    virtio_block-serves_write pool ops file_byte ops-IsFile 1 1 1 empty written sector_bytes_of
      writes_out (omega arith) full (omega arith) (omega arith) refl refl wrote pending0 status_room

-- The buffer behind a read of the file `f`.
abbrev read_from : Bytes → ℕ → List ℕ
read_from f sector = splice (zeros 1) 0 (bytes_at f (u64 (sector * sector_size)) (sector_bytes 1))

got :
    (f : Bytes) (sector : ℕ)
    → block_io_worker_fn ops f (io_req false sector (zeros 1) 1 (read_request (zeros 1) 1 0 2))
      ≡ (success, read_from f sector, f)
unfolding block_io_worker_fn io_req io_result
got f sector = refl

virtio_block-serves_read_example :
    (virtio_block_recv_request (disk_image pool) s 0 2 16 (1 * sector_size + 1)
      ≡ done (success, record s { backend = 1 }))
    × (empty ≡ empty)
    × (t' : Machine ℕ) × (virtio_block_req_end s
          (read_request (read_from empty (sector_of s (desc2 ∷ []))) 1 0 2)
          success
        ≡ done t')
    × IsReturned s queue 2
        (1 * sector_size + 1)
        (write_part (desc2 ∷ desc3 ∷ []))
        (bytes_at empty (u64 (sector_of s (desc2 ∷ []) * sector_size)) (1 * sector_size) ++ 0 ∷ [])
        t'
virtio_block-serves_read_example =
    virtio_block-serves_read pool ops file_byte ops-IsFile 16 1 1 empty empty
      (read_from empty (sector_of s (desc2 ∷ []))) reads_in header_room (omega arith) refl refl
      (got empty (sector_of s (desc2 ∷ []))) pending2 sector_room

virtio_block-read_written_example :
    (t' : Machine ℕ) × (virtio_block_req_end s
        (read_request (read_from written (sector_of s (desc0 ∷ []))) 1 0 2)
        success
      ≡ done t')
    × IsReturned s queue 2
        (1 * sector_size + 1)
        (write_part (desc2 ∷ desc3 ∷ []))
        (payload s (desc0 ∷ []) ++ 0 ∷ [])
        t'
virtio_block-read_written_example =
    virtio_block-read_written ops file_byte ops-IsFile 1 empty written written sector_bytes_of
      (read_from written (sector_of s (desc0 ∷ []))) write_req writes_out full wrote
      (got written (sector_of s (desc0 ∷ []))) pending2 sector_room
