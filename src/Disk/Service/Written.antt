-- ===== src/Disk/Service/Written.antt =====
-- A read of what the guest has written.
use mvvmm.Base.{
  ℕ, ◌+◌, ◌*◌, ◌^◌, ◌<◌, ◌≡◌, ap, sym, subst, ◌∙◌, true, false, List, [], ◌∷◌, ◌++◌, u64, length,
  take, done, success, arith,
}
use mvvmm.Guest.{bytes_at, overlay}
use mvvmm.Guest.Frame.{bytes_at_ext, bytes_at-overlay_self}
use mvvmm.Virtio.Device.{QueueState, Machine}
use mvvmm.Virtio.Chain.{VirtioDesc}
use mvvmm.Virtio.Chain.Sizes.{total_len, write_part}
use mvvmm.Virtio.Queue.Complete.{IsPending, IsReturned}
use mvvmm.Virtio.Block.{BlockRequest, header_size, blk_t_out, sector_size, virtio_block_req_end}
use mvvmm.Virtio.Block.Complete.{take-length}
use mvvmm.Disk.{FileOps, io_req, block_io_worker_fn}
use mvvmm.Disk.Sectors.{IsFile, sector_bytes, sector_bytes-small, worker_writes}
use mvvmm.Disk.Service.{IsRequestOf, sector_of, payload, length-payload}
use mvvmm.Disk.Service.Read.{read_request, zeros, read-IsReturned}

module _ {F : Type 0} (ops : FileOps F) (byte : F → ℕ → ℕ) (file : IsFile ops byte) where
  -- What the file has where the worker has written.
  written_there :
      (sector n : ℕ) (f f' : F) (bytes buf' : List ℕ) (req : BlockRequest)
      → length bytes ≡ n * sector_size
      → n * sector_size < 2 ^ 31
      → block_io_worker_fn ops f (io_req true sector bytes n req) ≡ (success, buf', f')
      → bytes_at (byte f') (u64 (sector * sector_size)) (n * sector_size) ≡ bytes
  written_there sector n f f' bytes buf' req len small wrote =
      let offset : ℕ = u64 (sector * sector_size) in
      let whole : take (sector_bytes n) bytes ≡ bytes =
        take-length bytes (sector_bytes n) (len ∙ sym (sector_bytes-small n small)) in
      bytes_at_ext (byte f') (overlay (byte f) offset bytes) offset (n * sector_size) (λ p lo hi.
        worker_writes ops byte file f f' sector n bytes buf' req wrote p
        ∙ ap (λ bs. overlay (byte f) offset bs p) whole)
      ∙ ap (bytes_at (overlay (byte f) offset bytes) offset) (sym len)
      ∙ bytes_at-overlay_self (byte f) offset bytes

  -- A write request of `n` sectors whose worker reports a success on a regular file, and then a read of
  -- as many sectors from the same sector on whose worker reports a success: the chain of the read is
  -- returned with exactly the bytes that stood behind the header of the write, and the status 0, in its
  -- writable part.
  pub virtio_block-read_written :
      {B : Type 0} {s t : Machine B} {q q' : QueueState} {i j idx jdx : ℕ} {d h : VirtioDesc}
      {ds tl : List VirtioDesc} {k entries : ℕ} (n : ℕ) (f f' f'' : F) (wbuf' rbuf' : List ℕ)
      (wreq : BlockRequest)
      → IsRequestOf blk_t_out s q i idx d ds
      → header_size + n * sector_size ≡ total_len (d ∷ ds)
      → block_io_worker_fn ops f (io_req true (sector_of s (d ∷ ds)) (payload s (d ∷ ds)) n wreq)
        ≡ (success, wbuf', f')
      → block_io_worker_fn ops f'
          (io_req false (sector_of s (d ∷ ds)) (zeros n) n (read_request (zeros n) n j jdx))
        ≡ (success, rbuf', f'')
      → IsPending t j q' k entries jdx h tl
      → total_len (write_part (h ∷ tl)) ≡ n * sector_size + 1
      → (t' : Machine B) × (virtio_block_req_end t (read_request rbuf' n j jdx) success ≡ done t')
        × IsReturned t q' jdx
            (n * sector_size + 1)
            (write_part (h ∷ tl))
            (payload s (d ∷ ds) ++ 0 ∷ [])
            t'
  virtio_block-read_written {s = s} {t = t} {q' = q'} {jdx = jdx} {d = d} {h = h} {ds = ds}
        {tl = tl} n f f' f'' wbuf' rbuf' wreq r all wrote got pending room =
      let sector = sector_of s (d ∷ ds) in
      let bytes = payload s (d ∷ ds) in
      let ws = write_part (h ∷ tl) in
      let small : n * sector_size + 1 < 2 ^ 31 = omega (arith, all, r.small) in
      let there : bytes_at (byte f') (u64 (sector * sector_size)) (n * sector_size) ≡ bytes =
        written_there sector n f f' bytes wbuf' wreq
          (length-payload s (d ∷ ds) (n * sector_size) all) (omega arith) wrote in
      let (_, t', ended, returned) =
        read-IsReturned ops byte file sector n f' f'' rbuf' small got pending room in
      (
        t',
        ended,
        subst (λ bs. IsReturned t q' jdx (n * sector_size + 1) ws (bs ++ 0 ∷ []) t') there returned,
      )
