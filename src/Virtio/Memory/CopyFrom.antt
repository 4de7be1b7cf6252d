-- ===== src/Virtio/Memory/CopyFrom.antt =====
-- `virtio_memcpy_from_guest` against a plain copy of the whole range.
use mvvmm.Base.{
  ℕ, zero, suc, ◌+◌, ◌-◌, ◌^◌, ◌≤◌, ◌<◌, ◌≡◌, refl, ap, ◌∙◌, List, length, done, success, failure,
  splice, write_buf-done, length-splice, splice-nil, splice-splice, arith, lt→ltb,
}
use mvvmm.Guest.{GuestMem, bytes_at}
use mvvmm.Guest.Frame.{load_bytes-done}
use mvvmm.Guest.Words.{length-bytes_at, bytes_at-append}
use mvvmm.Virtio.Memory.{guest_addr_to_host_addr, chunk, copy_from_loop, memcpy_from_guest}
use mvvmm.Virtio.Memory.Chunk.{
  chunk_bounds, host_addr-some, is_positive-true, advance, remain, add_rest,
}

-- Two loads end to end, copied into a buffer, are one.
splice-loads :
    (f : ℕ → ℕ) (buf : List ℕ) (pos addr c d : ℕ)
    → splice (splice buf pos (bytes_at f addr c)) (pos + c) (bytes_at f (addr + c) d)
      ≡ splice buf pos (bytes_at f addr (c + d))
splice-loads f buf pos addr c d =
    rw (bytes_at-append f addr c d)
      (rw length-bytes_at at (splice-splice buf pos (bytes_at f addr c) (bytes_at f (addr + c) d)))

copy_from_end :
    (m : GuestMem) (fuel : ℕ) (buf : List ℕ) (pos addr : ℕ)
    → copy_from_loop (suc fuel) m buf pos addr 0 ≡ done (success, buf)
unfolding copy_from_loop
copy_from_end m fuel buf pos addr = refl

module _ (m : GuestMem) (bounded : m.size < 2 ^ 64) where
  copy_from_round :
      (fuel : ℕ) (buf : List ℕ) (pos addr count : ℕ)
      → 0 < count
      → count < 2 ^ 31
      → addr + count ≤ m.size
      → pos + count ≤ length buf
      → copy_from_loop (suc fuel) m buf pos addr count
        ≡ copy_from_loop fuel m
            (splice buf pos (bytes_at m.byte addr (chunk addr count)))
            (pos + chunk addr count)
            (addr + chunk addr count)
            (count - chunk addr count)
  unfolding copy_from_loop
  copy_from_round fuel buf pos addr count p s fits room =
      let (_, most) = chunk_bounds addr count p s in
      rw
        (
          is_positive-true p s,
          host_addr-some m addr (omega arith),
          load_bytes-done m addr (chunk addr count) (omega arith),
          write_buf-done buf pos (bytes_at m.byte addr (chunk addr count))
              (omega (arith, length-bytes_at m.byte addr (chunk addr count))),
          advance addr (chunk addr count) (omega arith),
          remain count (chunk addr count) most s,
        )
        refl

  copy_from-loads :
      (fuel : ℕ) (buf : List ℕ) (pos addr count : ℕ)
      → count < fuel
      → count < 2 ^ 31
      → addr + count ≤ m.size
      → pos + count ≤ length buf
      → copy_from_loop fuel m buf pos addr count
        ≡ done (success, splice buf pos (bytes_at m.byte addr count))
  copy_from-loads zero buf pos addr count f s fits room = absurd (omega arith)
  copy_from-loads (suc fuel) buf pos addr zero f s fits room =
      rw splice-nil (copy_from_end m fuel buf pos addr)
  copy_from-loads (suc fuel) buf pos addr (suc n) f s fits room =
      let count : ℕ = suc n in
      let c = chunk addr count in
      let (some_go, most) = chunk_bounds addr count (omega arith) s in
      copy_from_round fuel buf pos addr count (omega arith) s fits room
      ∙ copy_from-loads fuel (splice buf pos (bytes_at m.byte addr c)) (pos + c) (addr + c)
          (count - c) (omega arith) (omega arith) (omega arith)
          (rw
            (length-splice buf pos (bytes_at m.byte addr c)
              (omega (arith, length-bytes_at m.byte addr c)))
            (omega arith))
      ∙ ap (λ b. done (success, b))
          (splice-loads m.byte buf pos addr c (count - c)
            ∙ ap (λ (k : ℕ). splice buf pos (bytes_at m.byte addr k)) (add_rest count c most))

  -- `virtio_memcpy_from_guest` of fewer than 2 ^ 31 bytes, which the buffer has room for, from a
  -- range inside the memory succeeds, and puts exactly the bytes of that range into the buffer,
  -- however many pages it spans.
  pub memcpy_from_guest-loads :
      (buf : List ℕ) (pos addr count : ℕ)
      → count < 2 ^ 31
      → addr + count ≤ m.size
      → pos + count ≤ length buf
      → memcpy_from_guest m buf pos addr count
        ≡ done (success, splice buf pos (bytes_at m.byte addr count))
  unfolding memcpy_from_guest
  memcpy_from_guest-loads buf pos addr count s fits room =
      copy_from-loads (suc count) buf pos addr count (omega arith) s fits room

-- A copy from beyond the end fails at once, and leaves the buffer as it was.
pub memcpy_from_guest-beyond :
    (m : GuestMem) (buf : List ℕ) (pos addr count : ℕ)
    → 0 < count
    → count < 2 ^ 31
    → m.size < addr
    → memcpy_from_guest m buf pos addr count ≡ done (failure, buf)
unfolding memcpy_from_guest copy_from_loop guest_addr_to_host_addr
memcpy_from_guest-beyond m buf pos addr count p s far = rw (is_positive-true p s, lt→ltb far) refl
