-- ===== src/Disk/Sectors.antt =====
-- What the worker does to the sectors of the file.
use mvvmm.Base.{
  ℕ, ◌+◌, ◌-◌, ◌*◌, ◌/◌, ◌^◌, ◌≤◌, ◌<◌, ◌≡◌, ◌⊎◌, inl, inr, Bool-cases, ap, ap₂, sym, ◌∙◌, true,
  false, Option, none, some, List, ◌==◌, u32, u64, int_to_u64, sub32, length, take, splice,
  length-take, success, failure, arith,
}
use mvvmm.Guest.{bytes_at, overlay}
use mvvmm.Guest.Frame.{bytes_at_ext, overlay-outside, bytes_at-overlay_self}
use mvvmm.Virtio.Block.{BlockRequest, sector_size, sectors}
use mvvmm.Virtio.Block.Request.{sectors-small}
use mvvmm.Disk.{FileOps, io_result, block_io_worker_fn, io_req}

-- A regular file, whose bytes are `byte` (0 behind the end): the two calls say how many bytes they
-- have transferred, no more than asked for, and have transferred those.
pub record IsFile {F : Type 0} (ops : FileOps F) (byte : F → ℕ → ℕ) : Type 0 where
  pub reads :
      (f : F) (buf : List ℕ) (count offset n : ℕ) (buf' : List ℕ)
      → ops.pread f buf count offset ≡ (some n, buf')
      → (n ≤ count) × (buf' ≡ splice buf 0 (bytes_at (byte f) offset n))
  pub writes :
      (f f' : F) (buf : List ℕ) (count offset n : ℕ)
      → ops.pwrite f buf count offset ≡ (some n, f')
      → (n ≤ count) × ((p : ℕ) → byte f' p ≡ overlay (byte f) offset (take n buf) p)

-- The bytes that a request for `n` sectors asks for.
abbrev pub sector_bytes : ℕ → ℕ
sector_bytes n = int_to_u64 (u32 (n * sector_size))

pub io_result-success : (o : Option ℕ) (count : ℕ) → io_result o count ≡ success → o ≡ some count
unfolding io_result
io_result-success none count e = cc
io_result-success (some n) count e = elim (Bool-cases (n == count)) [
  | inl same ↦ ap some (ground (arith, same))
  | inr differs ↦ absurd (unequal (rw differs at e))
]
  where
    unequal : failure ≡ success → ⊥
    unequal e = cc

pub sector_bytes-small : (n : ℕ) → n * sector_size < 2 ^ 31 → sector_bytes n ≡ n * sector_size
sector_bytes-small n small = ground arith

module _ {F : Type 0} (ops : FileOps F) (byte : F → ℕ → ℕ) (file : IsFile ops byte) where
  pub worker_writes :
      (f f' : F) (sector n : ℕ) (buf buf' : List ℕ) (opaque : BlockRequest)
      → block_io_worker_fn ops f (io_req true sector buf n opaque) ≡ (success, buf', f')
      → (p : ℕ)
      → byte f' p ≡ overlay (byte f) (u64 (sector * sector_size)) (take (sector_bytes n) buf) p
  unfolding block_io_worker_fn io_req
  worker_writes f f' sector n buf buf' opaque e =
      let offset : ℕ = u64 (sector * sector_size) in
      let all =
        io_result-success (ops.pwrite f buf (sector_bytes n) offset).0 (sector_bytes n)
          (ap (λ r. r.0) e) in
      (file.writes f f' buf (sector_bytes n) offset (sector_bytes n)
        (ap₂ (λ o g. (o, g)) all (ap (λ r. r.2) e))).1

  pub worker_reads :
      (f f' : F) (sector n : ℕ) (buf buf' : List ℕ) (opaque : BlockRequest)
      → block_io_worker_fn ops f (io_req false sector buf n opaque) ≡ (success, buf', f')
      → (buf' ≡ splice buf 0 (bytes_at (byte f) (u64 (sector * sector_size)) (sector_bytes n)))
        × (f ≡ f')
  unfolding block_io_worker_fn io_req
  worker_reads f f' sector n buf buf' opaque e =
      let offset : ℕ = u64 (sector * sector_size) in
      let all =
        io_result-success (ops.pread f buf (sector_bytes n) offset).0 (sector_bytes n)
          (ap (λ r. r.0) e) in
      (
        (file.reads f buf (sector_bytes n) offset (sector_bytes n) buf'
            (ap₂ (λ o g. (o, g)) all (ap (λ r. r.1) e))).1,
        ap (λ r. r.2) e,
      )

  -- A write of `n` sectors, fewer than 2 ^ 31 bytes, which its buffer has, that the worker reports as a
  -- success on a regular file, followed by a successful read of the same sectors: the read puts
  -- exactly the written bytes at the front of its buffer, it leaves the file alone, and the write has
  -- changed no byte of the file outside those sectors.
  pub block_io_worker_fn-write_read :
      (f f' f'' : F) (sector n : ℕ) (wbuf rbuf wbuf' rbuf' : List ℕ) (wreq rreq : BlockRequest)
      → n * sector_size < 2 ^ 31
      → n * sector_size ≤ length wbuf
      → block_io_worker_fn ops f (io_req true sector wbuf n wreq) ≡ (success, wbuf', f')
      → block_io_worker_fn ops f' (io_req false sector rbuf n rreq) ≡ (success, rbuf', f'')
      → (rbuf' ≡ splice rbuf 0 (take (n * sector_size) wbuf))
        × (f' ≡ f'')
        × ((p : ℕ)
            → (p < u64 (sector * sector_size)) ⊎ (u64 (sector * sector_size) + n * sector_size ≤ p)
            → byte f' p ≡ byte f p)
  block_io_worker_fn-write_read f f' f'' sector n wbuf rbuf wbuf' rbuf' wreq rreq small host wrote
        got =
      let offset : ℕ = u64 (sector * sector_size) in
      let bytes : List ℕ = take (n * sector_size) wbuf in
      let len : length bytes ≡ n * sector_size =
        omega (arith, length-take (n * sector_size) wbuf) in
      let count = sector_bytes-small n small in
      let changed : (p : ℕ) → byte f' p ≡ overlay (byte f) offset bytes p = λ p.
        worker_writes f f' sector n wbuf wbuf' wreq wrote p
        ∙ ap (λ k. overlay (byte f) offset (take k wbuf) p) count in
      let (read, same) = worker_reads f' f'' sector n rbuf rbuf' rreq got in
      let there : bytes_at (byte f') offset (n * sector_size) ≡ bytes =
        bytes_at_ext (byte f') (overlay (byte f) offset bytes) offset (n * sector_size)
          (λ p lo hi. changed p)
        ∙ ap (bytes_at (overlay (byte f) offset bytes) offset) (sym len)
        ∙ bytes_at-overlay_self (byte f) offset bytes in
      (
        read
            ∙ ap (λ k. splice rbuf 0 (bytes_at (byte f') offset k)) count
            ∙ ap (splice rbuf 0) there,
        same,
        λ p away. changed p ∙ overlay-outside (byte f) offset bytes p (ground (arith, len)),
      )

-- A read request of the guest, with a buffer of `write_size` bytes: what the worker is asked to read
-- ends before the last byte, which is for the status, and leaves less than a sector of the others.
pub io_req-bounded :
    (write_size sector : ℕ) (buf : List ℕ) (req : BlockRequest)
    → 0 < write_size
    → write_size < 2 ^ 31
    → ((io_req false sector buf (sectors (sub32 write_size 1)) req).count ≤ write_size - 1)
      × (write_size - 1
          < (io_req false sector buf (sectors (sub32 write_size 1)) req).count + sector_size)
unfolding io_req
io_req-bounded write_size sector buf req some_bytes small =
    let minus : sub32 write_size 1 ≡ write_size - 1 = omega arith in
    let n : sectors (sub32 write_size 1) ≡ (write_size - 1) / sector_size =
      ap sectors minus ∙ sectors-small (write_size - 1) (omega arith) in
    let count : sector_bytes (sectors (sub32 write_size 1))
        ≡ (write_size - 1) / sector_size * sector_size =
      ap sector_bytes n ∙ sector_bytes-small ((write_size - 1) / sector_size) (omega arith) in
    (omega (arith, count), omega (arith, count))
