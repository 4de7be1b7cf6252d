-- ===== src/Disk/Service.antt =====
-- A request of the guest, from the queue through the worker of the disk image back to the used ring.
pub mod Read
pub mod Written
use mvvmm.Base.{
  ℕ, ◌+◌, ◌-◌, ◌*◌, ◌/◌, ◌^◌, ◌≤◌, ◌<◌, ◌≡◌, refl, ap, sym, subst, ◌∙◌, true, false, List, [], ◌∷◌,
  ◌++◌, u64, length, length-append, take, drop, length-drop, replicate, length-replicate, splice,
  splice-append, drop-length, done, Code, success, arith,
}
use mvvmm.Guest.{bytes_at, overlay}
use mvvmm.Virtio.Device.{QueueState, Machine}
use mvvmm.Virtio.Chain.{VirtioDesc}
use mvvmm.Virtio.Chain.Sizes.{total_len, write_part}
use mvvmm.Virtio.Chain.Data.{data_of, length-data_of}
use mvvmm.Virtio.Chain.Locate.{Front}
use mvvmm.Virtio.Queue.{queue_at}
use mvvmm.Virtio.Queue.Complete.{IsPending, IsReturned}
use mvvmm.Virtio.Block.{
  BlockRequest, request, header_size, header_type, header_sector, blk_t_in, blk_t_out, sector_size,
  virtio_block_req_end, virtio_block_recv_request,
}
use mvvmm.Virtio.Block.Request.{
  header_of, virtio_block_recv_request-writes, virtio_block_recv_request-reads,
}
use mvvmm.Virtio.Block.Complete.{
  answer, reads, writes, take-length, virtio_block_req_end-IsReturned,
}
use mvvmm.Disk.{
  FileOps, Host, io_req, block_io_worker_fn, block_read_async, block_write_async, disk_image,
}
use mvvmm.Disk.Sectors.{IsFile, sector_bytes, sector_bytes-small, worker_writes, worker_reads}

-- A request of the given type at the head `idx` of the queue `i`; its readable part is `ds`.
pub record IsRequestOf {B : Type 0} (type : ℕ) (s : Machine B) (q : QueueState) (i idx : ℕ)
    (d : VirtioDesc) (ds : List VirtioDesc) : Type 0 where
  pub bounded : s.mem.size < 2 ^ 64
  pub queue : queue_at s.dev i ≡ done q
  pub front : Front false s.mem q idx d ds
  pub small : total_len (d ∷ ds) < 2 ^ 31
  pub kind : header_type (header_of s (d ∷ ds)) ≡ type

-- The sector of the header, and the bytes behind the header.
abbrev pub sector_of : {B : Type 0} → Machine B → List VirtioDesc → ℕ
sector_of s ds = header_sector (header_of s ds)

abbrev pub payload : {B : Type 0} → Machine B → List VirtioDesc → List ℕ
payload s ds = drop header_size (data_of s.mem ds)

length-payload :
    {B : Type 0} (s : Machine B) (ds : List VirtioDesc) (n : ℕ)
    → header_size + n ≡ total_len ds
    → length (payload s ds) ≡ n
length-payload s ds n all =
    omega (arith, length-drop header_size (data_of s.mem ds), length-data_of s.mem ds)

whole_sectors : (n : ℕ) → n * sector_size / sector_size ≡ n
whole_sectors n = omega arith

module _ {B F : Type 0} (host : Host B) (ops : FileOps F) (byte : F → ℕ → ℕ)
    (file : IsFile ops byte) where
  accepts_write :
      (b b' : B) (sector n : ℕ) (buf : List ℕ) (req : BlockRequest)
      → host.malloc b ≡ true
      → host.thread_pool_run b (io_req true sector buf n req) ≡ (success, b')
      → block_write_async host b sector buf n req ≡ (success, b')
  unfolding block_write_async
  accepts_write b b' sector n buf req room runs = rw room runs

  accepts_read :
      (b b' : B) (sector n : ℕ) (req : BlockRequest)
      → host.malloc b ≡ true
      → host.thread_pool_run b (io_req false sector req.buf n req) ≡ (success, b')
      → block_read_async host b sector req.buf n req ≡ (success, b')
  unfolding block_read_async
  accepts_read b b' sector n req room runs = rw room runs

  -- A write of `n` sectors, at least one, with room for the status, which the pool takes, and whose
  -- worker then reports a success on a regular file: the handler returns with success, and the file
  -- has exactly the guest's bytes at the sector of the header and is unchanged elsewhere. When the
  -- worker calls back, whatever the machine has become meanwhile, as long as the chain is still with the
  -- device, the chain is returned with the status 0 in front of its writable part.
  pub virtio_block-serves_write :
      {s t : Machine B} {q q' : QueueState} {i idx : ℕ} {d h : VirtioDesc} {ds tl : List VirtioDesc}
      {k entries : ℕ} (n write_size : ℕ) (b : B) (f f' : F) (buf' : List ℕ)
      → IsRequestOf blk_t_out s q i idx d ds
      → 0 < n
      → header_size + n * sector_size ≡ total_len (d ∷ ds)
      → 0 < write_size
      → write_size < 2 ^ 31
      → host.malloc s.backend ≡ true
      → host.thread_pool_run s.backend
          (io_req true (sector_of s (d ∷ ds)) (payload s (d ∷ ds)) n (request blk_t_out [] 0 i idx))
        ≡ (success, b)
      → block_io_worker_fn ops f
          (io_req true (sector_of s (d ∷ ds)) (payload s (d ∷ ds)) n (request blk_t_out [] 0 i idx))
        ≡ (success, buf', f')
      → IsPending t i q' k entries idx h tl
      → 0 < total_len (write_part (h ∷ tl))
      → (virtio_block_recv_request (disk_image host) s i idx (total_len (d ∷ ds)) write_size
          ≡ done (success, record s { backend = b }))
        × ((p : ℕ)
            → byte f' p
              ≡ overlay (byte f) (u64 (sector_of s (d ∷ ds) * sector_size)) (payload s (d ∷ ds)) p)
        × (t' : Machine B) × (virtio_block_req_end t (request blk_t_out [] 0 i idx) success
            ≡ done t')
        × IsReturned t q' idx 1
            (write_part (h ∷ tl))
            (splice (data_of t.mem (write_part (h ∷ tl))) 0 (0 ∷ []))
            t'
  unfolding answer
  virtio_block-serves_write {s = s} {t = t} {q = q} {q' = q'} {i = i} {idx = idx} {d = d} {h = h}
        {ds = ds} {tl = tl} {k = k} {entries = entries} n write_size b f f' buf' r some_data all
        room ints mem runs worked pending fits =
      let req = request blk_t_out [] 0 i idx in
      let bytes = payload s (d ∷ ds) in
      let sector = sector_of s (d ∷ ds) in
      let len : length bytes ≡ n * sector_size = length-payload s (d ∷ ds) (n * sector_size) all in
      let whole : take (sector_bytes n) bytes ≡ bytes =
        take-length bytes (sector_bytes n)
          (len ∙ sym (sector_bytes-small n (omega (arith, all, r.small)))) in
      let (t', ended, returned, _) =
        virtio_block_req_end-IsReturned t req success q' k entries h tl pending (writes refl)
          (omega (arith, fits)) in
      (
        virtio_block_recv_request-writes (disk_image host) s q i idx d ds (n * sector_size)
            write_size b r.bounded r.queue r.front (omega arith) all r.small r.kind room ints
            (ap (λ c. block_write_async host s.backend sector bytes c req) (whole_sectors n)
              ∙ accepts_write s.backend b sector n bytes req mem runs),
        λ p.
            worker_writes ops byte file f f' sector n bytes buf' req worked p
            ∙ ap (λ bs. overlay (byte f) (u64 (sector * sector_size)) bs p) whole,
        t',
        ended,
        returned,
      )
