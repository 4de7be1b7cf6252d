-- ===== src/Virtio/Memory.antt =====
-- Guest memory as the device reaches it (virtio.c): the address check, the aligned 16 and 32 bit
-- accesses, and the copies that go page by page.
pub mod Access
pub mod Chunk
pub mod CopyFrom
pub mod CopyTo
use mvvmm.Base.{
  ℕ, zero, suc, ◌+◌, ◌-◌, ◌%◌, List, Option, none, some, ltb, ◌==◌, if◌then◌else◌, u64, sub32, slt,
  is_positive, length, take, drop, Outcome, done, crash, out_of_fuel, ◌>>=◌, Code, success, failure,
  write_buf, read_buf,
}
use mvvmm.Guest.{GuestMem, le_value, le_bytes, load_bytes, store_bytes}

abbrev pub page_size : ℕ
page_size = 4096

-- `none` is the NULL pointer; the host address is its offset in `host_mem`.
unfoldable pub guest_addr_to_host_addr : GuestMem → ℕ → Option ℕ
guest_addr_to_host_addr m guest_addr = if ltb m.size guest_addr then none else some guest_addr

-- Of a bad address these read 0, and write nothing.
unfoldable pub read16 : GuestMem → ℕ → Outcome ℕ
unfolding guest_addr_to_host_addr
read16 m addr = if addr % 2 == 1 then done 0 else elim (guest_addr_to_host_addr m addr) [
  | none ↦ done 0
  | some p ↦ do bytes ← load_bytes m p 2; done (le_value bytes)
]

unfoldable pub write16 : GuestMem → ℕ → ℕ → Outcome GuestMem
unfolding guest_addr_to_host_addr
write16 m addr val = if addr % 2 == 1 then done m else elim (guest_addr_to_host_addr m addr) [
  | none ↦ done m
  | some p ↦ store_bytes m p (le_bytes 2 val)
]

unfoldable pub write32 : GuestMem → ℕ → ℕ → Outcome GuestMem
unfolding guest_addr_to_host_addr
write32 m addr val =
    if addr % 4 == 0
    then elim (guest_addr_to_host_addr m addr) [
      | none ↦ done m
      | some p ↦ store_bytes m p (le_bytes 4 val)
    ]
    else done m

unfoldable pub min_int : ℕ → ℕ → ℕ
min_int a b = if slt a b then a else b

-- The bytes of one round: what is wanted, or what is left of the page.
unfoldable pub chunk : ℕ → ℕ → ℕ
unfolding min_int
chunk addr count = min_int count (page_size - addr % page_size)

-- `buf` is the whole destination and `pos` the pointer into it. Fuel is spent once a round.
unfoldable pub copy_from_loop : ℕ → GuestMem → List ℕ → ℕ → ℕ → ℕ → Outcome (Code × List ℕ)
unfolding guest_addr_to_host_addr
copy_from_loop zero m buf pos addr count = out_of_fuel
copy_from_loop (suc fuel) m buf pos addr count =
    if is_positive count
    then elim (guest_addr_to_host_addr m addr) [
      | none ↦ done (failure, buf)
      | some p ↦ do
        let l = chunk addr count
        bytes ← load_bytes m p l
        buf' ← write_buf buf pos bytes
        copy_from_loop fuel m buf' (pos + l) (u64 (addr + l)) (sub32 count l)
    ]
    else done (success, buf)

-- Every round copies a byte at least, so `count + 1` rounds are enough.
unfoldable pub memcpy_from_guest : GuestMem → List ℕ → ℕ → ℕ → ℕ → Outcome (Code × List ℕ)
unfolding copy_from_loop
memcpy_from_guest m buf pos addr count = copy_from_loop (suc count) m buf pos addr count

unfoldable pub copy_to_loop : ℕ → GuestMem → ℕ → List ℕ → ℕ → ℕ → Outcome (Code × GuestMem)
unfolding guest_addr_to_host_addr
copy_to_loop zero m addr buf pos count = out_of_fuel
copy_to_loop (suc fuel) m addr buf pos count =
    if is_positive count
    then elim (guest_addr_to_host_addr m addr) [
      | none ↦ done (failure, m)
      | some p ↦ do
        let l = chunk addr count
        bytes ← read_buf buf pos l
        m' ← store_bytes m p bytes
        copy_to_loop fuel m' (u64 (addr + l)) buf (pos + l) (sub32 count l)
    ]
    else done (success, m)

unfoldable pub memcpy_to_guest : GuestMem → ℕ → List ℕ → ℕ → ℕ → Outcome (Code × GuestMem)
unfolding copy_to_loop
memcpy_to_guest m addr buf pos count = copy_to_loop (suc count) m addr buf pos count
