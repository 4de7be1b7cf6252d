-- ===== src/Virtio/Chain/Layout.antt =====
-- Descriptors as they lie in the guest's memory.
use mvvmm.Base.{
  ℕ, ◌+◌, ◌*◌, ◌^◌, ◌≤◌, ◌<◌, ◌≡◌, ap, ◌∙◌, true, false, List, [], ◌∷◌, u64, int_to_u64, length,
  done, success, splice, arith, drop-length, append-nil,
}
use mvvmm.Guest.{GuestMem, bytes_at}
use mvvmm.Guest.Words.{length-bytes_at}
use mvvmm.Virtio.Memory.CopyFrom.{memcpy_from_guest-loads}
use mvvmm.Virtio.Device.{QueueState}
use mvvmm.Virtio.Chain.{VirtioDesc, fields, desc_size, has_next, get_desc}

-- The 16 bytes of descriptor `idx` of the queue's table, and its fields.
abbrev pub raw_desc : GuestMem → QueueState → ℕ → List ℕ
raw_desc m qs idx = bytes_at m.byte (qs.desc_addr + idx * desc_size) desc_size

unfoldable pub desc_at : GuestMem → QueueState → ℕ → VirtioDesc
desc_at m qs idx = fields (raw_desc m qs idx)

-- The table has `idx`, whole.
abbrev pub InTable : GuestMem → QueueState → ℕ → Type 0
InTable m qs idx = (qs.desc_addr + idx * desc_size + desc_size ≤ m.size) × (idx < 2 ^ 16)

-- Behind `d` the `next` fields lead through the descriptors `ds`.
abbrev pub Follows : GuestMem → QueueState → VirtioDesc → List VirtioDesc → Type 0
Follows m qs d [] = Unit {0}
Follows m qs d (d' ∷ ds) =
    (has_next d ≡ true) × InTable m qs d.next × (desc_at m qs d.next ≡ d') × Follows m qs d' ds

-- The last of `d` and `ds` has no successor.
abbrev pub Ends : VirtioDesc → List VirtioDesc → Type 0
Ends d [] = has_next d ≡ false
Ends d (d' ∷ ds) = Ends d' ds

-- A chain: it begins at `idx`, runs through `d` and `ds`, and ends there.
pub record IsChain (m : GuestMem) (qs : QueueState) (idx : ℕ) (d : VirtioDesc)
    (ds : List VirtioDesc) : Type 0 where
  pub in_table : InTable m qs idx
  pub head : desc_at m qs idx ≡ d
  pub follows : Follows m qs d ds
  pub ends : Ends d ds

-- A local `struct virtio_desc` that holds `d`.
pub record Holds (desc : List ℕ) (d : VirtioDesc) : Type 0 where
  pub whole : length desc ≡ desc_size
  pub holds : fields desc ≡ d

pub splice_whole : (buf bytes : List ℕ) → length buf ≡ length bytes → splice buf 0 bytes ≡ bytes
unfolding splice
splice_whole buf bytes h = rw (← h, drop-length buf) (append-nil bytes)

module _ (m : GuestMem) (bounded : m.size < 2 ^ 64) (qs : QueueState) where
  -- `get_desc` of an index in the table reads that descriptor.
  pub get_desc-raw_desc :
      (desc : List ℕ) (idx : ℕ)
      → length desc ≡ desc_size
      → InTable m qs idx
      → get_desc m qs desc idx ≡ done (success, raw_desc m qs idx)
  unfolding get_desc
  get_desc-raw_desc desc idx len (fits, small) =
      let same : u64 (qs.desc_addr + int_to_u64 idx * desc_size) ≡ qs.desc_addr + idx * desc_size =
        ground arith in
      rw same (
        memcpy_from_guest-loads m bounded desc 0 (qs.desc_addr + idx * desc_size) desc_size
          (omega arith) (omega arith) (omega arith)
        ∙ ap (λ b. done (success, b)) (splice_whole desc (raw_desc m qs idx) len))

  pub Holds-raw_desc :
      (idx : ℕ) {d : VirtioDesc} → desc_at m qs idx ≡ d → Holds (raw_desc m qs idx) d
  unfolding desc_at
  Holds-raw_desc idx e = record {
    whole = length-bytes_at m.byte (qs.desc_addr + idx * desc_size) desc_size;
    holds = e;
  }

  -- The step from a descriptor that the code holds to the next of the walk.
  pub get_desc-next :
      {desc : List ℕ} {d : VirtioDesc}
      → Holds desc d
      → InTable m qs d.next
      → get_desc m qs desc (fields desc).next ≡ done (success, raw_desc m qs d.next)
  get_desc-next {desc} {d} h t = rw h.holds (get_desc-raw_desc desc d.next h.whole t)
