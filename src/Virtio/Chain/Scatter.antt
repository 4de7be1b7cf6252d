-- ===== src/Virtio/Chain/Scatter.antt =====
-- `memcpy_to_queue` against the bytes that it should leave in the chain.
use mvvmm.Base.{
  ℕ, zero, suc, ◌+◌, ◌-◌, ◌*◌, ◌^◌, ◌≤◌, ◌<◌, ◌≡◌, ◌⊎◌, refl, ap, ap₂, sym, inl, inr, ◌++◌,
  append-nil, ◌∙◌, true, List, [], ◌∷◌, ◌==◌, u32, u64, sub32, false, int_to_u64, length, take,
  drop, arith, done, success,
}
use native.Mathlib.Decide.{dec_le}
use mvvmm.Guest.{GuestMem}
use mvvmm.Virtio.Device.{QueueState}
use mvvmm.Virtio.Memory.{min_int}
use mvvmm.Virtio.Memory.CopyTo.{stored, part, length-part, take-drop-add, memcpy_to_guest-stores}
use mvvmm.Virtio.Chain.{VirtioDesc, desc_size, has_next, is_write, copy_piece, copy_chain}
use mvvmm.Virtio.Chain.Layout.{raw_desc, desc_at, InTable, Follows, Holds, Holds-raw_desc}
use mvvmm.Virtio.Chain.Locate.{flag_test, next_desc-done}
use mvvmm.Virtio.Chain.Sizes.{total_len}
use mvvmm.Virtio.Chain.Data.{InMemory, Buffers, drop-append, take-append}
use mvvmm.Virtio.Chain.Gather.{piece_len}
use mvvmm.Virtio.Chain.Spread.{scattered, scattered-inside, scattered-across}
use mvvmm.Virtio.Chain.Table.{Safe, Follows-stored}

module _ (qs : QueueState) (entries : ℕ) where
  copy_piece-stores :
      (m : GuestMem) (addr : ℕ) (buf : List ℕ) (pos l : ℕ)
      → m.size < 2 ^ 64
      → l < 2 ^ 31
      → addr + l ≤ m.size
      → pos + l ≤ length buf
      → copy_piece true m addr buf pos l ≡ done (stored m addr (part buf pos l), buf)
  unfolding copy_piece
  copy_piece-stores m addr buf pos l bounded s fits room =
      rw (memcpy_to_guest-stores m addr buf pos l bounded s fits room)

  -- The last round: what is left ends inside this descriptor.
  copy_chain-inside :
      (k : ℕ) (m : GuestMem) (desc : List ℕ) (d : VirtioDesc) (offset : ℕ) (buf : List ℕ)
      (pos count : ℕ)
      → m.size < 2 ^ 64
      → Holds desc d
      → InMemory m d
      → offset ≤ d.len
      → count ≤ d.len - offset
      → pos + count ≤ length buf
      → copy_chain (suc k) true 2 m qs desc offset buf pos count
        ≡ done (success, stored m (d.addr + offset) (part buf pos count), buf)
  unfolding copy_chain
  copy_chain-inside k m desc d offset buf pos count bounded h (inside, small) o fits room =
      let l : min_int count (sub32 d.len offset) ≡ count =
        omega (arith, piece_len count d.len offset o small (omega arith)) in
      let start : u64 (d.addr + int_to_u64 offset) ≡ d.addr + offset = ground arith in
      let none_left : sub32 count count ≡ 0 = omega arith in
      rw
        (
          h.holds,
          l,
          start,
          none_left,
          copy_piece-stores m (d.addr + offset) buf pos count bounded (omega arith) (omega arith)
              room,
        )
        refl

  -- A round that fills the rest of this descriptor and goes on to the next.
  copy_chain-across :
      (k : ℕ) (m : GuestMem) (desc : List ℕ) (d d' : VirtioDesc) (offset : ℕ) (buf : List ℕ)
      (pos count : ℕ)
      → m.size < 2 ^ 64
      → Holds desc d
      → InMemory m d
      → has_next d ≡ true
      → InTable (stored m (d.addr + offset) (part buf pos (d.len - offset))) qs d.next
      → desc_at (stored m (d.addr + offset) (part buf pos (d.len - offset))) qs d.next ≡ d'
      → is_write d' ≡ true
      → offset ≤ d.len
      → d.len - offset < count
      → count < 2 ^ 31
      → pos + count ≤ length buf
      → length buf < 2 ^ 63
      → copy_chain (suc k) true 2 m qs desc offset buf pos count
        ≡ copy_chain k true 2
            (stored m (d.addr + offset) (part buf pos (d.len - offset)))
            qs
            (raw_desc (stored m (d.addr + offset) (part buf pos (d.len - offset))) qs d.next)
            0
            buf
            (pos + (d.len - offset))
            (count - (d.len - offset))
  unfolding copy_chain
  copy_chain-across k m desc d d' offset buf pos count bounded h (inside, small) more t at_next w o
        beyond s room host =
      let m1 = stored m (d.addr + offset) (part buf pos (d.len - offset)) in
      let l : min_int count (sub32 d.len offset) ≡ d.len - offset =
        omega (arith, piece_len count d.len offset o small s) in
      let start : u64 (d.addr + int_to_u64 offset) ≡ d.addr + offset = ground arith in
      let left : sub32 count (d.len - offset) ≡ count - (d.len - offset) = omega arith in
      let not_done : (count - (d.len - offset) == 0) ≡ false = ground arith in
      let at_end : (u32 (offset + (d.len - offset)) == d.len) ≡ true = ground arith in
      let pos' : u64 (pos + int_to_u64 (d.len - offset)) ≡ pos + (d.len - offset) = ground arith in
      let next = Holds-raw_desc m1 bounded qs d.next at_next in
      rw
        (
          h.holds,
          l,
          start,
          copy_piece-stores m (d.addr + offset) buf pos (d.len - offset) bounded (omega arith)
              (omega arith) (omega arith),
          left,
          not_done,
          at_end,
          more,
          next_desc-done m1 bounded qs h t,
          next.holds,
          flag_test true d' w,
        )
        (rw (h.holds, l, pos', left) refl)

  -- A part in two pieces.
  part-front :
      (buf : List ℕ) (pos c count : ℕ)
      → c ≤ count
      → pos + count ≤ length buf
      → (take c (part buf pos count) ≡ part buf pos c)
        × (drop c (part buf pos count) ≡ part buf (pos + c) (count - c))
  part-front buf pos c count h room =
      let whole : part buf pos count ≡ part buf pos c ++ part buf (pos + c) (count - c) =
        let all : c + (count - c) ≡ count = omega arith in
        sym (take-drop-add buf pos c (count - c) ∙ ap (part buf pos) all) in
      let front : length (part buf pos c) + 0 ≡ c = omega (arith, length-part buf pos c) in
      (
        ap (take c) whole
            ∙ ap (λ n. take n (part buf pos c ++ part buf (pos + c) (count - c))) (sym front)
            ∙ take-append (part buf pos c) (part buf (pos + c) (count - c)) 0
            ∙ append-nil (part buf pos c),
        ap (drop c) whole
            ∙ ap (λ n. drop n (part buf pos c ++ part buf (pos + c) (count - c))) (sym front)
            ∙ drop-append (part buf pos c) (part buf (pos + c) (count - c)) 0,
      )

  Buffers-stored :
      (m : GuestMem) (p : ℕ) (bs : List ℕ) (ds : List VirtioDesc)
      → Buffers true m ds
      → Buffers true (stored m p bs) ds
  Buffers-stored m p bs [] b = tt
  Buffers-stored m p bs (d ∷ ds) (w, inside, b) = (w, inside, Buffers-stored m p bs ds b)

  -- The table in the memory that a round leaves.
  away_from_table :
      (d : VirtioDesc) (offset : ℕ) (buf : List ℕ) (pos : ℕ)
      → offset ≤ d.len
      → pos + (d.len - offset) ≤ length buf
      → (d.addr + d.len ≤ qs.desc_addr) ⊎ (qs.desc_addr + entries * desc_size ≤ d.addr)
      → (d.addr + offset + length (part buf pos (d.len - offset)) ≤ qs.desc_addr)
        ⊎ (qs.desc_addr + entries * desc_size ≤ d.addr + offset)
  away_from_table d offset buf pos o room (inl before) =
      inl (omega (arith, length-part buf pos (d.len - offset)))
  away_from_table d offset buf pos o room (inr behind) = inr (omega arith)

  pub copy_chain-scatters :
      (k : ℕ) (m : GuestMem) (desc : List ℕ) (d : VirtioDesc) (ds : List VirtioDesc) (offset : ℕ)
      (buf : List ℕ) (pos count : ℕ)
      → m.size < 2 ^ 64
      → Holds desc d
      → Follows m qs d ds
      → Buffers true m (d ∷ ds)
      → Safe qs entries (d ∷ ds)
      → length ds < k
      → offset ≤ d.len
      → count < 2 ^ 31
      → offset + count ≤ total_len (d ∷ ds)
      → pos + count ≤ length buf
      → length buf < 2 ^ 63
      → copy_chain k true 2 m qs desc offset buf pos count
        ≡ done (success, scattered m (d ∷ ds) offset (part buf pos count), buf)
  unfolding total_len
  copy_chain-scatters zero m desc d ds offset buf pos count bounded h f b safe rounds o s fits room
        host =
      absurd (omega arith)
  copy_chain-scatters (suc k) m desc d [] offset buf pos count bounded h f (w, inside, b) safe
        rounds o s fits room host =
      copy_chain-inside k m desc d offset buf pos count bounded h inside o (omega arith) room
      ∙ ap (λ g. done (success, g, buf))
          (sym (
            scattered-inside m d [] offset (part buf pos count)
              (omega (arith, length-part buf pos count))))
  copy_chain-scatters (suc k) m desc d (d' ∷ ds) offset buf pos count bounded h
        (more, t, at_next, f) (w, inside, b) (apart, small) rounds o s fits room host =
      elim (dec_le count (d.len - offset)) [
        | yes p ↦
            copy_chain-inside k m desc d offset buf pos count bounded h inside o p room
            ∙ ap (λ g. done (success, g, buf))
                (sym (
                  scattered-inside m d (d' ∷ ds) offset (part buf pos count)
                    (omega (arith, length-part buf pos count))))
        | no n ↦
            let c = d.len - offset in
            let bs = part buf pos c in
            let m1 = stored m (d.addr + offset) bs in
            let (more1, t1, next1, f1) =
              Follows-stored m qs entries (d.addr + offset) bs
                (away_from_table d offset buf pos o (omega arith) apart.0) d (d' ∷ ds) small
                (more, t, at_next, f) in
            let (front, back) = part-front buf pos c count (omega arith) room in
            copy_chain-across k m desc d d' offset buf pos count bounded h inside more t1 next1 b.0
              o (omega arith) s room host
            ∙ copy_chain-scatters k m1 (raw_desc m1 qs d.next) d' ds 0 buf (pos + c) (count - c)
                bounded (Holds-raw_desc m1 bounded qs d.next next1) f1
                (Buffers-stored m (d.addr + offset) bs (d' ∷ ds) b) (apart.1, small.1) (omega arith)
                (omega arith) (omega arith) (omega arith) (omega arith) host
            ∙ ap (λ g. done (success, g, buf))
                (sym (
                  scattered-across m d (d' ∷ ds) offset (part buf pos count) o
                    (omega (arith, length-part buf pos count))
                  ∙ ap₂ (λ xs ys. scattered (stored m (d.addr + offset) xs) (d' ∷ ds) 0 ys) front
                      back))
      ]
