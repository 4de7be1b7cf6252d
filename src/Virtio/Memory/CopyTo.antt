-- ===== src/Virtio/Memory/CopyTo.antt =====
-- `virtio_memcpy_to_guest` against a plain store of the whole range.
use mvvmm.Base.{
  ℕ, zero, suc, ◌+◌, ◌-◌, ◌^◌, ◌≤◌, ◌<◌, ◌≡◌, refl, ap, ◌∙◌, List, ◌++◌, length, take, drop,
  take-add, drop-add, sym, done, success, read_buf-done, length-take, length-drop, fun_ext, [],
  arith,
}
use mvvmm.Guest.{GuestMem, overlay}
use mvvmm.Guest.Frame.{store_bytes-done, overlay-overlay, overlay-nil}
use mvvmm.Virtio.Memory.{chunk, copy_to_loop, memcpy_to_guest}
use mvvmm.Virtio.Memory.Chunk.{
  chunk_bounds, host_addr-some, is_positive-true, advance, remain, add_rest,
}

-- The memory after a store of `bs` at `addr`.
abbrev pub stored : GuestMem → ℕ → List ℕ → GuestMem
stored m addr bs = record m { byte = overlay m.byte addr bs }

stored-stored :
    (m : GuestMem) (addr : ℕ) (xs ys : List ℕ)
    → stored (stored m addr xs) (addr + length xs) ys ≡ stored m addr (xs ++ ys)
stored-stored m addr xs ys = ap (λ f. record m { byte = f }) (overlay-overlay m.byte addr xs ys)

-- The part of a buffer that a copy reads.
abbrev pub part : List ℕ → ℕ → ℕ → List ℕ
part buf pos n = take n (drop pos buf)

pub length-part : (buf : List ℕ) (pos n : ℕ) → pos + n ≤ length buf → length (part buf pos n) ≡ n
length-part buf pos n h = omega (arith, length-take n (drop pos buf), length-drop pos buf)

copy_to_end :
    (m : GuestMem) (fuel addr : ℕ) (buf : List ℕ) (pos : ℕ)
    → copy_to_loop (suc fuel) m addr buf pos 0 ≡ done (success, m)
unfolding copy_to_loop
copy_to_end m fuel addr buf pos = refl

pub stored-nil : (m : GuestMem) (addr : ℕ) → stored m addr [] ≡ m
stored-nil m addr = ap (λ f. record m { byte = f }) (fun_ext (overlay-nil m.byte addr))

copy_to_round :
    (fuel : ℕ) (m : GuestMem) (addr : ℕ) (buf : List ℕ) (pos count : ℕ)
    → m.size < 2 ^ 64
    → 0 < count
    → count < 2 ^ 31
    → addr + count ≤ m.size
    → pos + count ≤ length buf
    → copy_to_loop (suc fuel) m addr buf pos count
      ≡ copy_to_loop fuel
          (stored m addr (part buf pos (chunk addr count)))
          (addr + chunk addr count)
          buf
          (pos + chunk addr count)
          (count - chunk addr count)
unfolding copy_to_loop
copy_to_round fuel m addr buf pos count bounded p s fits room =
    let (_, most) = chunk_bounds addr count p s in
    rw
      (
        is_positive-true p s,
        host_addr-some m addr (omega arith),
        read_buf-done buf pos (chunk addr count) (omega arith),
        store_bytes-done m addr (part buf pos (chunk addr count))
            (omega (arith, length-part buf pos (chunk addr count))),
        advance addr (chunk addr count) (omega arith),
        remain count (chunk addr count) most s,
      )
      refl

pub take-drop-add :
    (buf : List ℕ) (pos c d : ℕ) → part buf pos c ++ part buf (pos + c) d ≡ part buf pos (c + d)
take-drop-add buf pos c d = rw drop-add (take-add c d (drop pos buf))

copy_to-stores :
    (fuel : ℕ) (m : GuestMem) (addr : ℕ) (buf : List ℕ) (pos count : ℕ)
    → m.size < 2 ^ 64
    → count < fuel
    → count < 2 ^ 31
    → addr + count ≤ m.size
    → pos + count ≤ length buf
    → copy_to_loop fuel m addr buf pos count ≡ done (success, stored m addr (part buf pos count))
copy_to-stores zero m addr buf pos count bounded f s fits room = absurd (omega arith)
copy_to-stores (suc fuel) m addr buf pos zero bounded f s fits room =
    copy_to_end m fuel addr buf pos ∙ ap (λ g. done (success, g)) (sym (stored-nil m addr))
copy_to-stores (suc fuel) m addr buf pos (suc n) bounded f s fits room =
    let count : ℕ = suc n in
    let c = chunk addr count in
    let (some_go, most) = chunk_bounds addr count (omega arith) s in
    copy_to_round fuel m addr buf pos count bounded (omega arith) s fits room
    ∙ copy_to-stores fuel (stored m addr (part buf pos c)) (addr + c) buf (pos + c) (count - c)
        bounded (omega arith) (omega arith) (omega arith) (omega arith)
    ∙ ap (λ g. done (success, g))
        (rw (length-part buf pos c (omega arith)) at
            (stored-stored m addr (part buf pos c) (part buf (pos + c) (count - c)))
          ∙ ap (stored m addr) (
              take-drop-add buf pos c (count - c)
              ∙ ap (λ (k : ℕ). part buf pos k) (add_rest count c most)))

-- `virtio_memcpy_to_guest` of fewer than 2 ^ 31 bytes, which the buffer has, to a range inside the
-- memory succeeds, and changes exactly the bytes of that range, to those of the buffer, however
-- many pages it spans.
pub memcpy_to_guest-stores :
    (m : GuestMem) (addr : ℕ) (buf : List ℕ) (pos count : ℕ)
    → m.size < 2 ^ 64
    → count < 2 ^ 31
    → addr + count ≤ m.size
    → pos + count ≤ length buf
    → memcpy_to_guest m addr buf pos count ≡ done (success, stored m addr (part buf pos count))
unfolding memcpy_to_guest
memcpy_to_guest-stores m addr buf pos count bounded s fits room =
    copy_to-stores (suc count) m addr buf pos count bounded (omega arith) s fits room
