-- ===== src/Virtio/Queue/Complete.antt =====
-- A chain that is given back to the driver: the bytes in its writable part, and the used ring.
use mvvmm.Base.{
  ℕ, ◌+◌, ◌*◌, ◌^◌, ◌≤◌, ◌<◌, ◌≡◌, ◌⊎◌, refl, ap, ap₂, subst, ◌∙◌, List, [], ◌∷◌, ◌++◌, u16,
  bit_and, bit_or, ◌==◌, if◌then◌else◌, done, arith,
}
use mvvmm.Guest.{GuestMem, bytes_at, le_value}
use mvvmm.Guest.Frame.{bytes_at_ext}
use mvvmm.Virtio.Device.{QueueState, Machine}
use mvvmm.Virtio.Chain.{VirtioDesc}
use mvvmm.Virtio.Chain.Sizes.{write_part}
use mvvmm.Virtio.Chain.Data.{data_of}
use mvvmm.Virtio.Chain.Spread.{Apart, Apart-narrow, Separate}
use mvvmm.Virtio.Chain.Deliver.{IsTarget}
use mvvmm.Virtio.Queue.{queue_at, virtio_consume_desc}
use mvvmm.Virtio.Queue.Used.{
  IsUsedRing, used_index, slot_addr, driver_flags, raised, virtio_consume_desc_lem, slot_bounds,
}

-- The queue `i` is `q`, with a used ring of `2 ^ k` entries. The chain of `idx` can be written to, and
-- its buffers overlap neither each other nor the used ring and the flags of the driver.
pub record IsPending {B : Type 0} (s : Machine B) (i : ℕ) (q : QueueState) (k entries idx : ℕ)
    (h : VirtioDesc) (t : List VirtioDesc) : Type 0 where
  pub queue : queue_at s.dev i ≡ done q
  pub ring : IsUsedRing s.mem q k
  pub target : IsTarget s.mem q entries idx h t
  pub separate : Separate (write_part (h ∷ t))
  pub off_ring : Apart q.used_addr (q.used_addr + 4 + q.num * 8) (write_part (h ∷ t))
  pub off_flags : Apart q.avail_addr (q.avail_addr + 2) (write_part (h ∷ t))
  pub small : idx < 2 ^ 16

-- `s'` is `s` with the chain `idx` given back: `answer` is in its writable part `ws`, the next entry of
-- the used ring names the chain and `written`, and the driver is told unless it does not want to be.
pub record IsReturned {B : Type 0} (s : Machine B) (q : QueueState) (idx written : ℕ)
    (ws : List VirtioDesc) (answer : List ℕ) (s' : Machine B) : Type 0 where
  pub bytes : data_of s'.mem ws ≡ answer
  pub id : le_value (bytes_at s'.mem.byte (slot_addr s.mem q) 4) ≡ idx
  pub len : le_value (bytes_at s'.mem.byte (slot_addr s.mem q + 4) 4) ≡ written
  pub index : used_index s'.mem q ≡ u16 (used_index s.mem q + 1)
  pub irqs :
      s'.irqs
      ≡ (if bit_and (driver_flags s.mem q) 1 == 0 then raised s.dev.irqfd s.irqs else s.irqs)
  pub int_status : s'.dev.int_status ≡ (
      if bit_and (driver_flags s.mem q) 1 == 0 then bit_or s.dev.int_status 1 else s.dev.int_status)
  pub backend : s'.backend ≡ s.backend
  pub elsewhere :
      (p : ℕ)
      → Apart p (p + 1) ws
      → (p < q.used_addr) ⊎ (q.used_addr + 4 + q.num * 8 ≤ p)
      → s'.mem.byte p ≡ s.mem.byte p

data_of-unchanged :
    (m m' : GuestMem) (lo hi : ℕ) (ds : List VirtioDesc)
    → Apart lo hi ds
    → ((p : ℕ) → (p < lo) ⊎ (hi ≤ p) → m'.byte p ≡ m.byte p)
    → data_of m' ds ≡ data_of m ds
unfolding data_of
data_of-unchanged m m' lo hi [] a same = refl
data_of-unchanged m m' lo hi (d ∷ ds) (a, others) same =
    ap₂ ◌++◌ (bytes_at_ext m'.byte m.byte d.addr d.len λ p from to. same p (ground arith))
      (data_of-unchanged m m' lo hi ds others same)

-- Memory that has changed in the buffers alone.
pub record IsWritten (m m' : GuestMem) (ws : List VirtioDesc) : Type 0 where
  pub size : m'.size ≡ m.size
  pub kept : (p : ℕ) → Apart p (p + 1) ws → m'.byte p ≡ m.byte p

pub IsWritten-bytes_at :
    {m m' : GuestMem} {ws : List VirtioDesc} (lo hi p n : ℕ)
    → IsWritten m m' ws
    → Apart lo hi ws
    → lo ≤ p
    → p + n ≤ hi
    → bytes_at m'.byte p n ≡ bytes_at m.byte p n
IsWritten-bytes_at {m} {m'} {ws} lo hi p n w apart low high =
    bytes_at_ext m'.byte m.byte p n
      λ a from to. w.kept a (Apart-narrow ws lo hi a (a + 1) apart (omega arith) (omega arith))

IsUsedRing-same :
    {m m' : GuestMem} {q : QueueState} {k : ℕ}
    → m'.size ≡ m.size
    → IsUsedRing m q k
    → IsUsedRing m' q k
IsUsedRing-same e r = record {
  num = r.num;
  small = r.small;
  aligned = r.aligned;
  whole = omega (arith, r.whole, e);
  bounded = omega (arith, r.bounded, e);
  flags_aligned = r.flags_aligned;
  flags_whole = omega (arith, r.flags_whole, e);
  apart = r.apart;
}

pub virtio_consume_desc-IsReturned :
    {B : Type 0} (s : Machine B) (m' : GuestMem) (q : QueueState) (k entries i idx len : ℕ)
    (h : VirtioDesc) (t : List VirtioDesc)
    → IsPending s i q k entries idx h t
    → IsWritten s.mem m' (write_part (h ∷ t))
    → len < 2 ^ 32
    → (s' : Machine B) × (virtio_consume_desc (record s { mem = m' }) i idx len ≡ done s')
      × IsReturned s q idx len (write_part (h ∷ t)) (data_of m' (write_part (h ∷ t))) s'
      × (s'.dev.queue ≡ s.dev.queue)
virtio_consume_desc-IsReturned s m' q k entries i idx len h t pending w small =
    let ws = write_part (h ∷ t) in
    let m = s.mem in
    let r = pending.ring in
    let index : used_index m' q ≡ used_index m q = ap le_value (
      IsWritten-bytes_at q.used_addr (q.used_addr + 4 + q.num * 8) (q.used_addr + 2) 2 w
        pending.off_ring (omega arith) (omega arith)) in
    let flags : driver_flags m' q ≡ driver_flags m q = ap le_value (
      IsWritten-bytes_at q.avail_addr (q.avail_addr + 2) q.avail_addr 2 w pending.off_flags
        (omega arith) (omega arith)) in
    let slot : slot_addr m' q ≡ slot_addr m q = rw index refl in
    let (s', e, id, length, next, kept, irqs, status, queue, backend) =
      virtio_consume_desc_lem (record s { mem = m' }) q k i idx len (IsUsedRing-same w.size r)
        pending.queue (omega (arith, pending.small)) small in
    let (_, inside, _) = slot_bounds m' q k (IsUsedRing-same w.size r) in
    let off_ring : (p : ℕ)
        → (p < q.used_addr) ⊎ (q.used_addr + 4 + q.num * 8 ≤ p)
        → s'.mem.byte p ≡ m'.byte p =
      λ p away. kept p (ground arith) (ground arith) in
    (
      s',
      e,
      record {
        bytes =
            data_of-unchanged m' s'.mem q.used_addr (q.used_addr + 4 + q.num * 8) ws
              pending.off_ring off_ring;
        id = subst (λ a. le_value (bytes_at s'.mem.byte a 4) ≡ idx) slot id;
        len = subst (λ a. le_value (bytes_at s'.mem.byte (a + 4) 4) ≡ len) slot length;
        index = next ∙ ap (λ n. u16 (n + 1)) index;
        irqs =
            irqs ∙ ap (λ f. if bit_and f 1 == 0 then raised s.dev.irqfd s.irqs else s.irqs) flags;
        int_status =
            status
            ∙ ap (λ f. if bit_and f 1 == 0 then bit_or s.dev.int_status 1 else s.dev.int_status)
                flags;
        backend = backend;
        elsewhere = λ p away off. off_ring p off ∙ w.kept p away;
      },
      queue,
    )
