-- ===== src/Virtio/Chain/Deliver.antt =====
-- `memcpy_to_queue` as a whole: the writable part of the chain then has the bytes.
use mvvmm.Base.{
  ℕ, ◌+◌, ◌^◌, ◌≤◌, ◌<◌, ◌≡◌, refl, ap, sym, subst, ◌∙◌, true, false, List, ◌∷◌, ◌==◌, length, take,
  arith, done, success, splice, length-take,
}
use mvvmm.Guest.{GuestMem}
use mvvmm.Virtio.Device.{QueueState}
use mvvmm.Virtio.Chain.{
  VirtioDesc, no_desc, first_desc, max_rounds, memcpy_to_from_queue, memcpy_to_queue,
}
use mvvmm.Virtio.Chain.Layout.{
  raw_desc, desc_at, InTable, Follows, get_desc-raw_desc, Holds-raw_desc,
}
use mvvmm.Virtio.Chain.Sizes.{total_len, write_part}
use mvvmm.Virtio.Chain.Data.{Buffers, data_of}
use mvvmm.Virtio.Chain.Spread.{
  scattered, Apart, Separate, size-scattered, scattered-outside, data_of-scattered,
}
use mvvmm.Virtio.Chain.Table.{Safe}
use mvvmm.Virtio.Chain.Locate.{find_offset-Located}
use mvvmm.Virtio.Chain.FindWrite.{find_write-WriteStart}
use mvvmm.Virtio.Chain.Scatter.{copy_chain-scatters}

-- The chain of `idx` is `h` and `t`, no more than the loops allow; the buffers of its writable part
-- lie in the memory, apart from the table of `entries` descriptors, to which alone it leads.
pub record IsTarget (m : GuestMem) (qs : QueueState) (entries idx : ℕ) (h : VirtioDesc)
    (t : List VirtioDesc) : Type 0 where
  pub in_table : InTable m qs idx
  pub head : desc_at m qs idx ≡ h
  pub follows : Follows m qs h t
  pub buffers : Buffers true m (write_part (h ∷ t))
  pub safe : Safe qs entries (write_part (h ∷ t))
  pub short : length (h ∷ t) ≤ max_rounds

module _ (m : GuestMem) (bounded : m.size < 2 ^ 64) (qs : QueueState) (entries idx : ℕ)
    (h : VirtioDesc) (t : List VirtioDesc) (target : IsTarget m qs entries idx h t) (buf : List ℕ)
    (offset count : ℕ) (some_bytes : 0 < count) (o : offset < 2 ^ 31) (s : count < 2 ^ 31)
    (fits : offset + count ≤ total_len (write_part (h ∷ t))) (room : count ≤ length buf)
    (host : length buf < 2 ^ 63) where
  pub memcpy_to_queue-scattered :
      memcpy_to_queue m qs idx offset buf count
      ≡ done (success, scattered m (write_part (h ∷ t)) offset (take count buf), buf)
  unfolding memcpy_to_queue memcpy_to_from_queue first_desc
  memcpy_to_queue-scattered =
      let (desc, e, start, fewer) =
        find_write-WriteStart m bounded qs max_rounds (raw_desc m qs idx) h t
          (Holds-raw_desc m bounded qs idx target.head) target.follows (omega (arith, target.short))
          (omega arith) in
      let buffers : Buffers true m (start.first ∷ start.others) =
        subst (Buffers true m) start.parts target.buffers in
      let safe : Safe qs entries (start.first ∷ start.others) =
        subst (Safe qs entries) start.parts target.safe in
      let fits' : offset + count ≤ total_len (start.first ∷ start.others) =
        subst (λ ds. offset + count ≤ total_len ds) start.parts fits in
      let short : length (start.first ∷ start.others) ≤ max_rounds =
        subst (λ ds. length ds ≤ max_rounds) start.parts (omega (arith, fewer, target.short)) in
      let (desc', inner, e', found) =
        find_offset-Located true m bounded qs max_rounds desc start.first start.others offset
          start.held start.follows buffers (omega (arith, short)) (omega arith) (omega arith) in
      let wanted : (count == 0) ≡ false = ground arith in
      rw (wanted, get_desc-raw_desc m bounded qs no_desc idx refl target.in_table, e, e')
        (copy_chain-scatters qs entries max_rounds m desc' found.here found.rest inner buf 0 count
            bounded found.held found.follows found.buffers (found.safe entries safe)
            (omega (arith, found.fewer, short)) (omega (arith, found.inside)) s
            (omega (arith, found.left)) (omega arith) host
          ∙ ap (λ g. done (success, g, buf))
              (sym (found.skips (take count buf) (omega (arith, length-take count buf)))
                ∙ ap (λ ds. scattered m ds offset (take count buf)) (sym start.parts)))

  -- A `memcpy_to_queue` of `count` bytes, at least one, at `offset` of a chain whose writable
  -- buffers lie in the memory, apart from the descriptor table and from each other, and hold that
  -- many (`IsTarget`, `Separate`; the sizes are such that an `int` holds them), succeeds: the data
  -- of the writable part has the bytes of the buffer from `offset` on and is otherwise unchanged, as
  -- is every byte of the memory outside its buffers, and the buffer itself.
  pub memcpy_to_queue-data_of :
      Separate (write_part (h ∷ t))
      → (m' : GuestMem) × (memcpy_to_queue m qs idx offset buf count ≡ done (success, m', buf))
        × (data_of m' (write_part (h ∷ t))
            ≡ splice (data_of m (write_part (h ∷ t))) offset (take count buf))
        × (m'.size ≡ m.size)
        × ((p : ℕ) → Apart p (p + 1) (write_part (h ∷ t)) → m'.byte p ≡ m.byte p)
  memcpy_to_queue-data_of sep =
      let ws = write_part (h ∷ t) in
      (
        scattered m ws offset (take count buf),
        memcpy_to_queue-scattered,
        data_of-scattered m ws offset (take count buf) sep (omega (arith, length-take count buf))
            (omega (arith, length-take count buf)),
        size-scattered m ws offset (take count buf),
        scattered-outside m ws offset (take count buf),
      )
