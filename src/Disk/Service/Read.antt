-- ===== src/Disk/Service/Read.antt =====
-- A read of the guest.
use mvvmm.Base.{
  ℕ, ◌+◌, ◌-◌, ◌*◌, ◌/◌, ◌^◌, ◌≤◌, ◌<◌, ◌≡◌, refl, ap, subst, ◌∙◌, true, false, List, [], ◌∷◌, ◌++◌,
  u64, length, length-append, append-nil, drop, replicate, length-replicate, splice, splice-splice,
  length-splice, drop-length, done, success, arith,
}
use mvvmm.Guest.{bytes_at}
use mvvmm.Guest.Words.{length-bytes_at}
use mvvmm.Virtio.Device.{QueueState, Machine}
use mvvmm.Virtio.Chain.{VirtioDesc}
use mvvmm.Virtio.Chain.Sizes.{total_len, write_part}
use mvvmm.Virtio.Chain.Data.{data_of, length-data_of}
use mvvmm.Virtio.Queue.Complete.{IsPending, IsReturned}
use mvvmm.Virtio.Block.{
  BlockRequest, request, header_size, blk_t_in, sector_size, virtio_block_req_end,
  virtio_block_recv_request,
}
use mvvmm.Virtio.Block.Request.{virtio_block_recv_request-reads}
use mvvmm.Virtio.Block.Complete.{answer, reads, virtio_block_req_end-IsReturned}
use mvvmm.Disk.{FileOps, Host, io_req, block_io_worker_fn, block_read_async, disk_image}
use mvvmm.Disk.Sectors.{IsFile, sector_bytes-small, worker_reads}
use mvvmm.Disk.Service.{IsRequestOf, sector_of, accepts_read}

splice-all : (buf bs : List ℕ) → length bs ≡ length buf → splice buf 0 bs ≡ bs
unfolding splice
splice-all buf bs e =
    ap (λ n. bs ++ drop n buf) e ∙ ap (λ r. bs ++ r) (drop-length buf) ∙ append-nil bs

-- The sectors and the status in a zeroed buffer.
filled :
    (bs : List ℕ) (n : ℕ)
    → length bs ≡ n
    → splice (splice (replicate (n + 1) 0) 0 bs) n (0 ∷ []) ≡ bs ++ 0 ∷ []
filled bs n e =
    let front : n ≡ 0 + length bs = omega arith in
    ap (λ p. splice (splice (replicate (n + 1) 0) 0 bs) p (0 ∷ [])) front
    ∙ splice-splice (replicate (n + 1) 0) 0 bs (0 ∷ [])
    ∙ splice-all (replicate (n + 1) 0) (bs ++ 0 ∷ [])
        (omega (arith, length-append bs (0 ∷ []), length-replicate {A = ℕ} (n + 1) 0))

-- The request that the disk is given, and the buffer in it when the worker has read.
abbrev pub read_request : List ℕ → ℕ → ℕ → ℕ → BlockRequest
read_request buf n i idx = request blk_t_in buf (n * sector_size + 1) i idx

abbrev pub zeros : ℕ → List ℕ
zeros n = replicate (n * sector_size + 1) 0

module _ {F : Type 0} (ops : FileOps F) (byte : F → ℕ → ℕ) (file : IsFile ops byte) where
  answer-read :
      (f f' : F) (sector n i idx : ℕ) (buf' : List ℕ)
      → n * sector_size < 2 ^ 31
      → block_io_worker_fn ops f (io_req false sector (zeros n) n (read_request (zeros n) n i idx))
        ≡ (success, buf', f')
      → (answer (read_request buf' n i idx) success
          ≡ bytes_at (byte f) (u64 (sector * sector_size)) (n * sector_size) ++ 0 ∷ [])
        × (length buf' ≡ n * sector_size + 1)
        × (f ≡ f')
  unfolding answer
  answer-read f f' sector n i idx buf' small worked =
      let bs = bytes_at (byte f) (u64 (sector * sector_size)) (n * sector_size) in
      let (got, same) =
        worker_reads ops byte file f f' sector n (zeros n) buf' (read_request (zeros n) n i idx)
          worked in
      let is : buf' ≡ splice (zeros n) 0 bs =
        got
        ∙ ap (λ c. splice (zeros n) 0 (bytes_at (byte f) (u64 (sector * sector_size)) c))
            (sector_bytes-small n small) in
      let len : length bs ≡ n * sector_size =
        length-bytes_at (byte f) (u64 (sector * sector_size)) (n * sector_size) in
      let last : n * sector_size + 1 - 1 ≡ n * sector_size = omega arith in
      (
        ap (λ p. splice buf' p (0 ∷ [])) last
            ∙ ap (λ b. splice b (n * sector_size) (0 ∷ [])) is
            ∙ filled bs (n * sector_size) len,
        ap length is
            ∙ length-splice (zeros n) 0 bs
                (omega (arith, len, length-replicate {A = ℕ} (n * sector_size + 1) 0))
            ∙ length-replicate {A = ℕ} (n * sector_size + 1) 0,
        same,
      )

  -- The end of a read, from the worker on.
  pub read-IsReturned :
      {B : Type 0} {t : Machine B} {q' : QueueState} {i idx : ℕ} {h : VirtioDesc}
      {tl : List VirtioDesc} {k entries : ℕ} (sector n : ℕ) (f f' : F) (buf' : List ℕ)
      → n * sector_size + 1 < 2 ^ 31
      → block_io_worker_fn ops f (io_req false sector (zeros n) n (read_request (zeros n) n i idx))
        ≡ (success, buf', f')
      → IsPending t i q' k entries idx h tl
      → total_len (write_part (h ∷ tl)) ≡ n * sector_size + 1
      → (f ≡ f')
        × (t' : Machine B) × (virtio_block_req_end t (read_request buf' n i idx) success ≡ done t')
        × IsReturned t q' idx
            (n * sector_size + 1)
            (write_part (h ∷ tl))
            (bytes_at (byte f) (u64 (sector * sector_size)) (n * sector_size) ++ 0 ∷ [])
            t'
  read-IsReturned {t = t} {q' = q'} {i = i} {idx = idx} {h = h} {tl = tl} {k = k}
        {entries = entries} sector n f f' buf' small worked pending room =
      let ws = write_part (h ∷ tl) in
      let bytes = bytes_at (byte f) (u64 (sector * sector_size)) (n * sector_size) ++ 0 ∷ [] in
      let (is, len, same) = answer-read f f' sector n i idx buf' (omega arith) worked in
      let long : length bytes ≡ n * sector_size + 1 = omega (
        arith,
        length-append (bytes_at (byte f) (u64 (sector * sector_size)) (n * sector_size)) (0 ∷ []),
        length-bytes_at (byte f) (u64 (sector * sector_size)) (n * sector_size),
      ) in
      let (t', ended, returned, _) =
        virtio_block_req_end-IsReturned t (read_request buf' n i idx) success q' k entries h tl
          pending (reads refl (omega arith) small len) (omega (arith, ap length is, long, room)) in
      let all : splice (data_of t.mem ws) 0 bytes ≡ bytes =
        splice-all (data_of t.mem ws) bytes (omega (arith, long, length-data_of t.mem ws, room)) in
      (
        same,
        t',
        ended,
        subst (λ bs. IsReturned t q' idx (n * sector_size + 1) ws bs t') all
            (subst (λ c. IsReturned t q' idx c ws (splice (data_of t.mem ws) 0 bytes) t') long
              (subst (λ bs. IsReturned t q' idx (length bs) ws (splice (data_of t.mem ws) 0 bs) t')
                is returned)),
      )

module _ {B F : Type 0} (host : Host B) (ops : FileOps F) (byte : F → ℕ → ℕ)
    (file : IsFile ops byte) where
  -- A read of `n` sectors, where the writable part has their size and one more byte, which the pool
  -- takes, and whose worker then reports a success on a regular file: the handler returns with success.
  -- When the worker calls back, whatever the machine has become meanwhile, as long as the chain is still
  -- with the device, the chain is returned with exactly the sectors of the file, from the sector of the
  -- header on, and the status 0 in its writable part; the file is unchanged.
  pub virtio_block-serves_read :
      {s t : Machine B} {q q' : QueueState} {i idx : ℕ} {d h : VirtioDesc} {ds tl : List VirtioDesc}
      {k entries : ℕ} (read_size n : ℕ) (b : B) (f f' : F) (buf' : List ℕ)
      → IsRequestOf blk_t_in s q i idx d ds
      → header_size ≤ total_len (d ∷ ds)
      → n * sector_size + 1 < 2 ^ 31
      → host.malloc s.backend ≡ true
      → host.thread_pool_run s.backend
          (io_req false (sector_of s (d ∷ ds)) (zeros n) n (read_request (zeros n) n i idx))
        ≡ (success, b)
      → block_io_worker_fn ops f
          (io_req false (sector_of s (d ∷ ds)) (zeros n) n (read_request (zeros n) n i idx))
        ≡ (success, buf', f')
      → IsPending t i q' k entries idx h tl
      → total_len (write_part (h ∷ tl)) ≡ n * sector_size + 1
      → (virtio_block_recv_request (disk_image host) s i idx read_size (n * sector_size + 1)
          ≡ done (success, record s { backend = b }))
        × (f ≡ f')
        × (t' : Machine B) × (virtio_block_req_end t (read_request buf' n i idx) success ≡ done t')
        × IsReturned t q' idx
            (n * sector_size + 1)
            (write_part (h ∷ tl))
            (bytes_at (byte f) (u64 (sector_of s (d ∷ ds) * sector_size)) (n * sector_size)
              ++ 0 ∷ [])
            t'
  virtio_block-serves_read {s = s} {q = q} {i = i} {idx = idx} {d = d} {ds = ds} read_size n b f f'
        buf' r enough small mem runs worked pending room =
      let sector = sector_of s (d ∷ ds) in
      let req = read_request (zeros n) n i idx in
      let count : (n * sector_size + 1 - 1) / sector_size ≡ n = omega arith in
      let (same, t', ended, returned) =
        read-IsReturned ops byte file sector n f f' buf' small worked pending room in
      (
        virtio_block_recv_request-reads (disk_image host) s q i idx d ds read_size
            (n * sector_size + 1) b r.bounded r.queue r.front enough r.small r.kind (omega arith)
            small
            (ap (λ c. block_read_async host s.backend sector (zeros n) c req) count
              ∙ accepts_read host ops byte file s.backend b sector n req mem runs),
        same,
        t',
        ended,
        returned,
      )
