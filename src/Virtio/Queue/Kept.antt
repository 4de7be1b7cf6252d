-- ===== src/Virtio/Queue/Kept.antt =====
-- The descriptor table and the chains in it, in a memory that has changed in the buffers alone.
use mvvmm.Base.{ℕ, ◌+◌, ◌*◌, ◌<◌, ◌≡◌, ap, ◌∙◌, true, List, [], ◌∷◌, arith}
use mvvmm.Guest.{GuestMem}
use mvvmm.Virtio.Device.{QueueState}
use mvvmm.Virtio.Chain.{VirtioDesc, fields, desc_size}
use mvvmm.Virtio.Chain.Layout.{desc_at, InTable, Follows}
use mvvmm.Virtio.Chain.Sizes.{write_part}
use mvvmm.Virtio.Chain.Data.{Buffers}
use mvvmm.Virtio.Chain.Spread.{Apart}
use mvvmm.Virtio.Chain.Table.{Indexed}
use mvvmm.Virtio.Chain.Deliver.{IsTarget}
use mvvmm.Virtio.Queue.Complete.{IsWritten, IsWritten-bytes_at}

-- The memory `m'` after stores into buffers that lie apart from the table.
module _ (m m' : GuestMem) (ws : List VirtioDesc) (q : QueueState) (entries : ℕ)
    (w : IsWritten m m' ws) (apart : Apart q.desc_addr (q.desc_addr + entries * desc_size) ws) where
  desc_at-kept : (i : ℕ) → i < entries → desc_at m' q i ≡ desc_at m q i
  unfolding desc_at
  desc_at-kept i small = ap fields (
      IsWritten-bytes_at q.desc_addr (q.desc_addr + entries * desc_size)
        (q.desc_addr + i * desc_size) desc_size w apart (omega arith) (omega arith))

  InTable-kept : (i : ℕ) → InTable m q i → InTable m' q i
  InTable-kept i (fits, small) = (omega (arith, w.size), small)

  Follows-kept :
      (d : VirtioDesc) (ds : List VirtioDesc)
      → Indexed entries (d ∷ ds)
      → Follows m q d ds
      → Follows m' q d ds
  Follows-kept d [] i f = tt
  Follows-kept d (d' ∷ ds) (small, i) (more, t, at_next, f) = (
    more,
    InTable-kept d.next t,
    desc_at-kept d.next (small more) ∙ at_next,
    Follows-kept d' ds i f,
  )

  Buffers-kept : (ds : List VirtioDesc) → Buffers true m ds → Buffers true m' ds
  Buffers-kept [] b = tt
  Buffers-kept (d ∷ ds) (is, (inside, small), b) =
      (is, (omega (arith, w.size), small), Buffers-kept ds b)

  pub IsTarget-kept :
      (idx : ℕ) (h : VirtioDesc) (t : List VirtioDesc)
      → idx < entries
      → Indexed entries (h ∷ t)
      → IsTarget m q entries idx h t
      → IsTarget m' q entries idx h t
  IsTarget-kept idx h t small i target = record {
    in_table = InTable-kept idx target.in_table;
    head = desc_at-kept idx small ∙ target.head;
    follows = Follows-kept h t i target.follows;
    buffers = Buffers-kept (write_part (h ∷ t)) target.buffers;
    safe = target.safe;
    short = target.short;
  }
