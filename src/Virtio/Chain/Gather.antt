-- ===== src/Virtio/Chain/Gather.antt =====
-- `memcpy_from_queue` against the data of the chain.
use mvvmm.Base.{
  ℕ, zero, suc, ◌+◌, ◌-◌, ◌^◌, ◌≤◌, ◌<◌, ◌≡◌, refl, ap, sym, ◌∙◌, true, false, List, [], ◌∷◌, ◌==◌,
  min, u32, u64, sub32, int_to_u64, length, take, drop, arith, done, success, splice, splice-splice,
  length-splice,
}
use native.Mathlib.Decide.{dec_le}
use mvvmm.Guest.{GuestMem, bytes_at}
use mvvmm.Guest.Words.{length-bytes_at}
use mvvmm.Virtio.Device.{QueueState}
use mvvmm.Virtio.Memory.{min_int}
use mvvmm.Virtio.Memory.CopyFrom.{memcpy_from_guest-loads}
use mvvmm.Virtio.Chain.{
  VirtioDesc, no_desc, has_next, is_write, copy_piece, copy_chain, first_desc, max_rounds,
  memcpy_to_from_queue, memcpy_from_queue,
}
use mvvmm.Virtio.Chain.Layout.{
  raw_desc, desc_at, InTable, Follows, Holds, get_desc-raw_desc, Holds-raw_desc,
}
use mvvmm.Virtio.Chain.Locate.{flag_test, next_desc-done, Front, find_offset-Located}
use mvvmm.Virtio.Chain.Sizes.{total_len}
use mvvmm.Virtio.Chain.Data.{data_of, InMemory, Buffers, window-inside, window-across}

-- The `min_int` of a copy, where both sides are small.
pub piece_len :
    (count len offset : ℕ)
    → offset ≤ len
    → len < 2 ^ 31
    → count < 2 ^ 31
    → min_int count (sub32 len offset) ≡ min count (len - offset)
unfolding min_int
piece_len count len offset h s t = ground arith

module _ (m : GuestMem) (bounded : m.size < 2 ^ 64) (qs : QueueState) where
  copy_piece-loads :
      (addr : ℕ) (buf : List ℕ) (pos l : ℕ)
      → l < 2 ^ 31
      → addr + l ≤ m.size
      → pos + l ≤ length buf
      → copy_piece false m addr buf pos l ≡ done (m, splice buf pos (bytes_at m.byte addr l))
  unfolding copy_piece
  copy_piece-loads addr buf pos l s fits room =
      rw (memcpy_from_guest-loads m bounded buf pos addr l s fits room)

  -- The last round: what is wanted ends inside this descriptor.
  copy_chain-inside :
      (k : ℕ) (desc : List ℕ) (d : VirtioDesc) (offset : ℕ) (buf : List ℕ) (pos count : ℕ)
      → Holds desc d
      → InMemory m d
      → offset ≤ d.len
      → count ≤ d.len - offset
      → pos + count ≤ length buf
      → copy_chain (suc k) false 0 m qs desc offset buf pos count
        ≡ done (success, m, splice buf pos (bytes_at m.byte (d.addr + offset) count))
  unfolding copy_chain
  copy_chain-inside k desc d offset buf pos count h (inside, small) o fits room =
      let l : min_int count (sub32 d.len offset) ≡ count =
        omega (arith, piece_len count d.len offset o small (omega arith)) in
      let start : u64 (d.addr + int_to_u64 offset) ≡ d.addr + offset = ground arith in
      let none_left : sub32 count count ≡ 0 = omega arith in
      rw
        (
          h.holds,
          l,
          start,
          none_left,
          copy_piece-loads (d.addr + offset) buf pos count (omega arith) (omega arith) room,
        )
        refl

  -- A round that takes the rest of this descriptor and goes on to the next.
  copy_chain-across :
      (k : ℕ) (desc : List ℕ) (d d' : VirtioDesc) (offset : ℕ) (buf : List ℕ) (pos count : ℕ)
      → Holds desc d
      → InMemory m d
      → has_next d ≡ true
      → InTable m qs d.next
      → desc_at m qs d.next ≡ d'
      → is_write d' ≡ false
      → offset ≤ d.len
      → d.len - offset < count
      → count < 2 ^ 31
      → pos + count ≤ length buf
      → length buf < 2 ^ 63
      → copy_chain (suc k) false 0 m qs desc offset buf pos count
        ≡ copy_chain k false 0 m qs
            (raw_desc m qs d.next)
            0
            (splice buf pos (bytes_at m.byte (d.addr + offset) (d.len - offset)))
            (pos + (d.len - offset))
            (count - (d.len - offset))
  unfolding copy_chain
  copy_chain-across k desc d d' offset buf pos count h (inside, small) more t at_next r o beyond s
        room host =
      let l : min_int count (sub32 d.len offset) ≡ d.len - offset =
        omega (arith, piece_len count d.len offset o small s) in
      let start : u64 (d.addr + int_to_u64 offset) ≡ d.addr + offset = ground arith in
      let left : sub32 count (d.len - offset) ≡ count - (d.len - offset) = omega arith in
      let not_done : (count - (d.len - offset) == 0) ≡ false = ground arith in
      let at_end : (u32 (offset + (d.len - offset)) == d.len) ≡ true = ground arith in
      let pos' : u64 (pos + int_to_u64 (d.len - offset)) ≡ pos + (d.len - offset) = ground arith in
      let next = Holds-raw_desc m bounded qs d.next at_next in
      rw
        (
          h.holds,
          l,
          start,
          copy_piece-loads (d.addr + offset) buf pos (d.len - offset) (omega arith) (omega arith)
              (omega arith),
          left,
          not_done,
          at_end,
          more,
          next_desc-done m bounded qs h t,
          next.holds,
          flag_test false d' r,
        )
        (rw (h.holds, l, pos', left) refl)

  pub copy_chain-gathers :
      (k : ℕ) (desc : List ℕ) (d : VirtioDesc) (ds : List VirtioDesc) (offset : ℕ) (buf : List ℕ)
      (pos count : ℕ)
      → Holds desc d
      → Follows m qs d ds
      → Buffers false m (d ∷ ds)
      → length ds < k
      → offset ≤ d.len
      → count < 2 ^ 31
      → offset + count ≤ total_len (d ∷ ds)
      → pos + count ≤ length buf
      → length buf < 2 ^ 63
      → copy_chain k false 0 m qs desc offset buf pos count
        ≡ done (success, m, splice buf pos (take count (drop offset (data_of m (d ∷ ds)))))
  unfolding total_len
  copy_chain-gathers zero desc d ds offset buf pos count h f b rounds o s fits room host =
      absurd (omega arith)
  copy_chain-gathers (suc k) desc d [] offset buf pos count h f (r, inside, b) rounds o s fits room
        host =
      copy_chain-inside k desc d offset buf pos count h inside o (omega arith) room
      ∙ ap (λ w. done (success, m, splice buf pos w))
          (sym (window-inside m d [] offset count o (omega arith)))
  copy_chain-gathers (suc k) desc d (d' ∷ ds) offset buf pos count h (more, t, at_next, f)
        (r, inside, b) rounds o s fits room host =
      elim (dec_le count (d.len - offset)) [
        | yes p ↦
            copy_chain-inside k desc d offset buf pos count h inside o p room
            ∙ ap (λ w. done (success, m, splice buf pos w))
                (sym (window-inside m d (d' ∷ ds) offset count o p))
        | no n ↦
            let c = d.len - offset in
            let piece = bytes_at m.byte (d.addr + offset) c in
            let len = length-bytes_at m.byte (d.addr + offset) c in
            copy_chain-across k desc d d' offset buf pos count h inside more t at_next b.0 o
              (omega arith) s room host
            ∙ copy_chain-gathers k (raw_desc m qs d.next) d' ds 0 (splice buf pos piece) (pos + c)
                (count - c) (Holds-raw_desc m bounded qs d.next at_next) f b (omega arith)
                (omega arith) (omega arith) (omega arith)
                (omega (arith, length-splice buf pos piece (omega arith)))
                (omega (arith, length-splice buf pos piece (omega arith)))
            ∙ ap (λ w. done (success, m, w))
                (rw len at (splice-splice buf pos piece (take (count - c) (data_of m (d' ∷ ds))))
                  ∙ ap (splice buf pos)
                      (sym (window-across m d (d' ∷ ds) offset count o (omega arith))))
      ]

  -- The walk from `desc_idx` begins with at most 1025 readable descriptors whose buffers lie in
  -- the memory (`Front`). A `memcpy_from_queue` of at least one byte, whose window `[offset,
  -- offset + count)` lies in their data and fits the buffer, with sizes that an `int` holds,
  -- succeeds, puts exactly that window of the data, end to end, at the front of the buffer, and
  -- leaves the guest's memory as it was.
  pub memcpy_from_queue-data_of :
      (buf : List ℕ) (idx offset count : ℕ) (d : VirtioDesc) (ds : List VirtioDesc)
      → Front false m qs idx d ds
      → 0 < count
      → offset < 2 ^ 31
      → count < 2 ^ 31
      → offset + count ≤ total_len (d ∷ ds)
      → count ≤ length buf
      → length buf < 2 ^ 63
      → memcpy_from_queue m buf qs idx offset count
        ≡ done (success, m, splice buf 0 (take count (drop offset (data_of m (d ∷ ds)))))
  unfolding memcpy_from_queue memcpy_to_from_queue first_desc
  memcpy_from_queue-data_of buf idx offset count d ds front pos o s fits room host =
      let (desc, inner, e, found) =
        find_offset-Located false m bounded qs max_rounds (raw_desc m qs idx) d ds offset
          (Holds-raw_desc m bounded qs idx front.head) front.follows front.buffers
          (omega (arith, front.short)) (omega arith) (omega arith) in
      let wanted : (count == 0) ≡ false = ground arith in
      rw (wanted, get_desc-raw_desc m bounded qs no_desc idx refl front.in_table, e)
        (copy_chain-gathers max_rounds desc found.here found.rest inner buf 0 count found.held
            found.follows found.buffers (omega (arith, found.fewer, front.short))
            (omega (arith, found.inside)) s (omega (arith, found.left)) (omega arith) host
          ∙ ap (λ w. done (success, m, splice buf 0 (take count w))) found.same)
