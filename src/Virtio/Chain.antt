-- ===== src/Virtio/Chain.antt =====
-- Descriptor chains (virtio.c): `get_desc`, `get_desc_rw_size` and `memcpy_to_from_queue`. A
-- descriptor that the code holds is the 16 bytes of its `struct virtio_desc`, so that a read which
-- fails leaves the one before in place, as it does in C.
pub mod Layout
pub mod Sizes
pub mod Data
pub mod Spread
pub mod Table
pub mod Locate
pub mod FindWrite
pub mod Gather
pub mod Rest
pub mod Scatter
pub mod Deliver
use mvvmm.Base.{
  ℕ, zero, suc, ◌+◌, ◌*◌, Bool, true, false, not, Option, none, some, List, [], ◌∷◌, ltb, ◌==◌,
  if◌then◌else◌, u32, u64, sub32, int_to_u64, bit_and, take, drop, replicate, Outcome, done, crash,
  out_of_fuel, ◌>>=◌, Code, success, failure,
}
use mvvmm.Guest.{GuestMem, le_value, le_bytes}
use mvvmm.Virtio.Memory.{memcpy_from_guest, memcpy_to_guest, min_int}
use mvvmm.Virtio.Device.{QueueState}

pub record VirtioDesc : Type 0 where
  pub addr : ℕ
  pub len : ℕ
  pub flags : ℕ
  pub next : ℕ

-- The fields of the struct in its 16 bytes.
unfoldable pub fields : List ℕ → VirtioDesc
fields bytes = record {
  addr = le_value (take 8 bytes);
  len = le_value (take 4 (drop 8 bytes));
  flags = le_value (take 2 (drop 12 bytes));
  next = le_value (take 2 (drop 14 bytes));
}

abbrev pub desc_size : ℕ
desc_size = 16

-- `= {0}`
abbrev pub no_desc : List ℕ
no_desc = replicate desc_size 0

abbrev pub f_next : ℕ
f_next = 1

abbrev pub f_write : ℕ
f_write = 2

unfoldable pub has_next : VirtioDesc → Bool
has_next d = not (bit_and d.flags f_next == 0)

unfoldable pub is_write : VirtioDesc → Bool
is_write d = not (bit_and d.flags f_write == 0)

unfoldable pub get_desc : GuestMem → QueueState → List ℕ → ℕ → Outcome (Code × List ℕ)
get_desc m qs desc desc_idx =
    memcpy_from_guest m desc 0 (u64 (qs.desc_addr + int_to_u64 desc_idx * desc_size)) desc_size

-- The two loops of `get_desc_rw_size`, which have no bound of their own in C. `none` is the -1.
unfoldable pub write_size_loop :
    ℕ → GuestMem → QueueState → List ℕ → ℕ → ℕ → Outcome (Option (ℕ × ℕ))
write_size_loop zero m qs desc read_size write_size = out_of_fuel
write_size_loop (suc fuel) m qs desc read_size write_size =
    let d = fields desc in
    let total = u32 (write_size + d.len) in
    if is_write d
    then if has_next d
      then (do
        (_, desc') ← get_desc m qs desc d.next
        write_size_loop fuel m qs desc' read_size total)
      else done (some (read_size, total))
    else done none

unfoldable pub read_size_loop : ℕ → GuestMem → QueueState → List ℕ → ℕ → Outcome (Option (ℕ × ℕ))
read_size_loop zero m qs desc read_size = out_of_fuel
read_size_loop (suc fuel) m qs desc read_size =
    let d = fields desc in
    let total = u32 (read_size + d.len) in
    if is_write d
    then write_size_loop (suc fuel) m qs desc read_size 0
    else if has_next d
    then (do (_, desc') ← get_desc m qs desc d.next; read_size_loop fuel m qs desc' total)
    else done (some (total, 0))

-- The sizes of the readable and of the writable part; the return codes of `get_desc` are not read.
unfoldable pub get_desc_rw_size : ℕ → GuestMem → QueueState → ℕ → Outcome (Option (ℕ × ℕ))
get_desc_rw_size fuel m qs desc_idx = do
  (_, desc) ← get_desc m qs no_desc desc_idx
  read_size_loop fuel m qs desc 0

-- The rounds that each loop of `memcpy_to_from_queue` makes before it gives up: i = 0 .. 1024.
abbrev pub max_rounds : ℕ
max_rounds = 1025

-- `get_desc` with its failure passed on.
unfoldable pub next_desc : GuestMem → QueueState → List ℕ → Outcome (Option (List ℕ))
next_desc m qs desc = do
  (code, desc') ← get_desc m qs desc (fields desc).next
  elim code [ success ↦ done (some desc') | failure ↦ done none ]

unfoldable pub or_fail : {A B : Type 0} → Outcome (Option A) → B → (A → Outcome B) → Outcome B
or_fail m b k = m >>= elim [ none ↦ done b | some a ↦ k a ]

-- The first write descriptor.
unfoldable pub find_write : ℕ → GuestMem → QueueState → List ℕ → Outcome (Option (List ℕ))
unfolding or_fail
find_write zero m qs desc = done none
find_write (suc rounds) m qs desc =
    if is_write (fields desc)
    then done (some desc)
    else if has_next (fields desc)
    then or_fail (next_desc m qs desc) none (λ desc'. find_write rounds m qs desc')
    else done none

-- The descriptor that holds `offset`, and the offset in it.
unfoldable pub find_offset :
    ℕ → GuestMem → QueueState → ℕ → List ℕ → ℕ → Outcome (Option (List ℕ × ℕ))
unfolding or_fail
find_offset zero m qs f_write_flag desc offset = done none
find_offset (suc rounds) m qs f_write_flag desc offset =
    let d = fields desc in
    if bit_and d.flags f_write == f_write_flag
    then if ltb offset d.len
      then done (some (desc, offset))
      else if has_next d
      then or_fail (next_desc m qs desc) none
          (λ desc'. find_offset rounds m qs f_write_flag desc' (sub32 offset d.len))
      else done none
    else done none

-- One piece, in the direction that `to_queue` says. Its return code is not read.
unfoldable pub copy_piece : Bool → GuestMem → ℕ → List ℕ → ℕ → ℕ → Outcome (GuestMem × List ℕ)
copy_piece true m addr buf pos l = do (_, m') ← memcpy_to_guest m addr buf pos l; done (m', buf)
copy_piece false m addr buf pos l = do
  (_, buf') ← memcpy_from_guest m buf pos addr l
  done (m, buf')

unfoldable pub copy_chain :
    ℕ
    → Bool
    → ℕ
    → GuestMem
    → QueueState
    → List ℕ
    → ℕ
    → List ℕ
    → ℕ
    → ℕ
    → Outcome (Code × GuestMem × List ℕ)
unfolding or_fail
copy_chain zero to_queue flag m qs desc offset buf pos count = done (failure, m, buf)
copy_chain (suc rounds) to_queue flag m qs desc offset buf pos count = do
  let d = fields desc
  let l = min_int count (sub32 d.len offset)
  (m', buf') ← copy_piece to_queue m (u64 (d.addr + int_to_u64 offset)) buf pos l
  let left = sub32 count l
  let pos' = u64 (pos + int_to_u64 l)
  if left == 0
      then done (success, m', buf')
      else if u32 (offset + l) == d.len
      then if has_next d
        then or_fail (next_desc m' qs desc) (failure, m', buf')
            (λ desc'.
              if bit_and (fields desc').flags f_write == flag
              then copy_chain rounds to_queue flag m' qs desc' 0 buf' pos' left
              else done (failure, m', buf'))
        else done (failure, m', buf')
      else copy_chain rounds to_queue flag m' qs desc (u32 (offset + l)) buf' pos' left

-- The search for the first write descriptor, made in one direction only.
unfoldable pub first_desc : Bool → GuestMem → QueueState → List ℕ → Outcome (Option (List ℕ))
first_desc true m qs desc = find_write max_rounds m qs desc
first_desc false m qs desc = done (some desc)

abbrev pub f_write_flag : Bool → ℕ
f_write_flag true = f_write
f_write_flag false = 0

-- `buf` is read if `to_queue` and written if not.
unfoldable pub memcpy_to_from_queue :
    GuestMem → List ℕ → QueueState → ℕ → ℕ → ℕ → Bool → Outcome (Code × GuestMem × List ℕ)
unfolding or_fail
memcpy_to_from_queue m buf qs desc_idx offset count to_queue =
    if count == 0 then done (success, m, buf) else do
      (code, desc) ← get_desc m qs no_desc desc_idx
      elim code [
        | failure ↦ done (failure, m, buf)
        | success ↦
            or_fail (first_desc to_queue m qs desc) (failure, m, buf)
              (λ start.
                or_fail (find_offset max_rounds m qs (f_write_flag to_queue) start offset)
                  (failure, m, buf)
                  (λ (at, inner).
                    copy_chain max_rounds to_queue (f_write_flag to_queue) m qs at inner buf 0
                      count))
      ]

unfoldable pub memcpy_from_queue :
    GuestMem → List ℕ → QueueState → ℕ → ℕ → ℕ → Outcome (Code × GuestMem × List ℕ)
memcpy_from_queue m buf qs desc_idx offset count =
    memcpy_to_from_queue m buf qs desc_idx offset count false

unfoldable pub memcpy_to_queue :
    GuestMem → QueueState → ℕ → ℕ → List ℕ → ℕ → Outcome (Code × GuestMem × List ℕ)
memcpy_to_queue m qs desc_idx offset buf count =
    memcpy_to_from_queue m buf qs desc_idx offset count true
