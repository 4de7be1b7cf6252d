-- ===== src/Virtio/Chain/Sizes.antt =====
-- `get_desc_rw_size` against the sizes of a chain, and its loop on a chain without an end.
use mvvmm.Base.{
  ℕ, zero, suc, ◌+◌, ◌^◌, ◌≤◌, ◌<◌, ◌≡◌, refl, ◌∙◌, Bool, true, false, ◌&&◌, Option, none, some,
  List, [], ◌∷◌, u32, length, done, out_of_fuel, arith, if◌then◌else◌,
}
use mvvmm.Guest.{GuestMem}
use mvvmm.Virtio.Device.{QueueState}
use mvvmm.Virtio.Chain.{
  VirtioDesc, no_desc, has_next, is_write, write_size_loop, read_size_loop, get_desc_rw_size,
}
use mvvmm.Virtio.Chain.Layout.{
  raw_desc, desc_at, InTable, Follows, Ends, IsChain, Holds, get_desc-raw_desc, Holds-raw_desc,
  get_desc-next,
}

-- The descriptors up to the first that the device writes, and the others.
unfoldable pub read_part : List VirtioDesc → List VirtioDesc
read_part [] = []
read_part (d ∷ ds) = if is_write d then [] else d ∷ read_part ds

unfoldable pub write_part : List VirtioDesc → List VirtioDesc
write_part [] = []
write_part (d ∷ ds) = if is_write d then d ∷ ds else write_part ds

unfoldable pub all_write : List VirtioDesc → Bool
all_write [] = true
all_write (d ∷ ds) = is_write d && all_write ds

unfoldable pub total_len : List VirtioDesc → ℕ
total_len [] = 0
total_len (d ∷ ds) = d.len + total_len ds

-- What the chain promises: readable descriptors, then writable ones only, and the two sums.
unfoldable pub chain_sizes : List VirtioDesc → Option (ℕ × ℕ)
chain_sizes ds =
    if all_write (write_part ds)
    then some (u32 (total_len (read_part ds)), u32 (total_len (write_part ds)))
    else none

module _ (m : GuestMem) (bounded : m.size < 2 ^ 64) (qs : QueueState) where
  write_size_loop-total :
      (fuel : ℕ) (desc : List ℕ) (d : VirtioDesc) (ds : List VirtioDesc) (r w : ℕ)
      → Holds desc d
      → Follows m qs d ds
      → Ends d ds
      → length ds < fuel
      → write_size_loop fuel m qs desc r w
        ≡ done (if all_write (d ∷ ds) then some (r, u32 (w + total_len (d ∷ ds))) else none)
  unfolding write_size_loop all_write total_len
  write_size_loop-total zero desc d ds r w h f e fuel = absurd (omega arith)
  write_size_loop-total (suc k) desc d [] r w h f e fuel = ground arith
  write_size_loop-total (suc k) desc d (d' ∷ ds) r w h (more, t, at_next, f) e fuel = ground (
    arith,
    get_desc-next m bounded qs h t,
    write_size_loop-total k (raw_desc m qs d.next) d' ds r (u32 (w + d.len))
        (Holds-raw_desc m bounded qs d.next at_next) f e,
  )

  read_size_loop-sizes :
      (fuel : ℕ) (desc : List ℕ) (d : VirtioDesc) (ds : List VirtioDesc) (r : ℕ)
      → Holds desc d
      → Follows m qs d ds
      → Ends d ds
      → length ds < fuel
      → r < 2 ^ 32
      → read_size_loop fuel m qs desc r
        ≡ done (
            if all_write (write_part (d ∷ ds))
            then some
                (u32 (r + total_len (read_part (d ∷ ds))), u32 (total_len (write_part (d ∷ ds))))
            else none)
  unfolding read_size_loop read_part write_part all_write total_len
  read_size_loop-sizes zero desc d ds r h f e fuel small = absurd (omega arith)
  read_size_loop-sizes (suc k) desc d [] r h f e fuel small =
      ground (arith, write_size_loop-total (suc k) desc d [] r 0 h f e fuel)
  read_size_loop-sizes (suc k) desc d (d' ∷ ds) r h f e fuel small = ground (
    arith,
    write_size_loop-total (suc k) desc d (d' ∷ ds) r 0 h f e fuel,
    get_desc-next m bounded qs h f.1,
    read_size_loop-sizes k (raw_desc m qs d.next) d' ds (u32 (r + d.len))
        (Holds-raw_desc m bounded qs d.next f.2) f.3 e,
  )

  -- On every chain that ends and lies in a memory of less than 2 ^ 64 bytes, with a round of fuel
  -- for each descriptor, `get_desc_rw_size` returns: the two sums modulo 2 ^ 32 where the writable
  -- descriptors stand behind the readable ones, and -1 where they do not.
  pub get_desc_rw_size-chain_sizes :
      (fuel idx : ℕ) (d : VirtioDesc) (ds : List VirtioDesc)
      → IsChain m qs idx d ds
      → length (d ∷ ds) ≤ fuel
      → get_desc_rw_size fuel m qs idx ≡ done (chain_sizes (d ∷ ds))
  unfolding get_desc_rw_size chain_sizes
  get_desc_rw_size-chain_sizes fuel idx d ds c enough =
      let start : 0 + total_len (read_part (d ∷ ds)) ≡ total_len (read_part (d ∷ ds)) =
        omega arith in
      rw (get_desc-raw_desc m bounded qs no_desc idx refl c.in_table) (
        read_size_loop-sizes fuel (raw_desc m qs idx) d ds 0
          (Holds-raw_desc m bounded qs idx c.head) c.follows c.ends enough (omega arith)
        ∙ rw start)

  -- A set of indices that no walk leaves and whose descriptors are all readable.
  pub record IsEndless (S : ℕ → Type 0) : Type 0 where
    pub in_table : (i : ℕ) → S i → InTable m qs i
    pub readable : (i : ℕ) → S i → is_write (desc_at m qs i) ≡ false
    pub goes_on : (i : ℕ) → S i → has_next (desc_at m qs i) ≡ true
    pub stays : (i : ℕ) → S i → S (desc_at m qs i).next

  read_size_loop-endless :
      (S : ℕ → Type 0) (fuel i r : ℕ)
      → IsEndless S
      → S i
      → read_size_loop fuel m qs (raw_desc m qs i) r ≡ out_of_fuel
  unfolding read_size_loop
  read_size_loop-endless S zero i r e s = refl
  read_size_loop-endless S (suc k) i r e s =
      let here = Holds-raw_desc m bounded qs i refl in
      let next = (desc_at m qs i).next in
      rw
        (
          here.holds,
          e.readable i s,
          e.goes_on i s,
          get_desc-raw_desc m bounded qs (raw_desc m qs i) next here.whole
              (e.in_table next (e.stays i s)),
        )
        (read_size_loop-endless S k next (u32 (r + (desc_at m qs i).len)) e (e.stays i s))

  -- On readable descriptors that all have a successor among them (`IsEndless`), `get_desc_rw_size`
  -- has not returned after any number of rounds: unlike `memcpy_to_from_queue` it does not count
  -- its rounds.
  pub get_desc_rw_size-endless :
      (S : ℕ → Type 0) (fuel i : ℕ) → IsEndless S → S i → get_desc_rw_size fuel m qs i ≡ out_of_fuel
  unfolding get_desc_rw_size
  get_desc_rw_size-endless S fuel i e s =
      rw (get_desc-raw_desc m bounded qs no_desc i refl (e.in_table i s))
        (read_size_loop-endless S fuel i 0 e s)
