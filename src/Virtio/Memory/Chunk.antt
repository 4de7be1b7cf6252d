-- ===== src/Virtio/Memory/Chunk.antt =====
-- One round of a page-wise copy.
use mvvmm.Base.{ℕ, ◌+◌, ◌-◌, ◌^◌, ◌≤◌, ◌<◌, ◌≡◌, some, u64, sub32, is_positive, arith, true}
use mvvmm.Guest.{GuestMem}
use mvvmm.Virtio.Memory.{guest_addr_to_host_addr, chunk}

pub chunk_bounds :
    (addr count : ℕ)
    → 0 < count
    → count < 2 ^ 31
    → (0 < chunk addr count) × (chunk addr count ≤ count)
unfolding chunk
chunk_bounds addr count pos small = ground arith

pub host_addr-some :
    (m : GuestMem) (addr : ℕ) → addr ≤ m.size → guest_addr_to_host_addr m addr ≡ some addr
unfolding guest_addr_to_host_addr
host_addr-some m addr h = ground arith

pub is_positive-true : {count : ℕ} → 0 < count → count < 2 ^ 31 → is_positive count ≡ true
is_positive-true p s = ground arith

-- The pointer arithmetic of a round does not wrap.
pub advance : (addr l : ℕ) → addr + l < 2 ^ 64 → u64 (addr + l) ≡ addr + l
advance addr l h = omega arith

pub remain : (count l : ℕ) → l ≤ count → count < 2 ^ 31 → sub32 count l ≡ count - l
remain count l h s = omega arith

pub add_rest : (count c : ℕ) → c ≤ count → c + (count - c) ≡ count
add_rest count c h = omega arith
