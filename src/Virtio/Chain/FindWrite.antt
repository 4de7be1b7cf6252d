-- ===== src/Virtio/Chain/FindWrite.antt =====
-- `find_write` finds the first descriptor that the device writes.
use mvvmm.Base.{
  ℕ, zero, suc, ◌^◌, ◌≤◌, ◌<◌, ◌≡◌, refl, Bool-cases, inl, inr, true, List, [], ◌∷◌, some, length,
  arith, done,
}
use mvvmm.Guest.{GuestMem}
use mvvmm.Virtio.Device.{QueueState}
use mvvmm.Virtio.Chain.{VirtioDesc, is_write, find_write}
use mvvmm.Virtio.Chain.Layout.{raw_desc, Follows, Holds, Holds-raw_desc}
use mvvmm.Virtio.Chain.Sizes.{write_part, total_len}
use mvvmm.Virtio.Chain.Locate.{next_desc-done}

module _ (m : GuestMem) (bounded : m.size < 2 ^ 64) (qs : QueueState) where
  -- `desc` holds the first of the writable part `all`, which the walk goes on through.
  pub record WriteStart (desc : List ℕ) (all : List VirtioDesc) : Type 0 where
    pub first : VirtioDesc
    pub others : List VirtioDesc
    pub parts : all ≡ first ∷ others
    pub held : Holds desc first
    pub follows : Follows m qs first others

  found_here :
      (k : ℕ) (desc : List ℕ) (h : VirtioDesc) (t : List VirtioDesc)
      → Holds desc h
      → Follows m qs h t
      → is_write h ≡ true
      → (desc' : List ℕ) × (find_write (suc k) m qs desc ≡ done (some desc'))
        × WriteStart desc' (write_part (h ∷ t))
        × (length (write_part (h ∷ t)) ≤ suc (length t))
  unfolding find_write write_part
  found_here k desc h t held f w = (
    desc,
    rw (held.holds, w) refl,
    rw w (record { first = h; others = t; parts = refl; held = held; follows = f }),
    rw w (omega arith),
  )

  pub find_write-WriteStart :
      (k : ℕ) (desc : List ℕ) (h : VirtioDesc) (t : List VirtioDesc)
      → Holds desc h
      → Follows m qs h t
      → length t < k
      → 0 < total_len (write_part (h ∷ t))
      → (desc' : List ℕ) × (find_write k m qs desc ≡ done (some desc'))
        × WriteStart desc' (write_part (h ∷ t))
        × (length (write_part (h ∷ t)) ≤ suc (length t))
  unfolding find_write write_part total_len
  find_write-WriteStart zero desc h t held f rounds some_room = absurd (omega arith)
  find_write-WriteStart (suc k) desc h [] held f rounds some_room = elim (Bool-cases (is_write h)) [
    | inl w ↦ found_here k desc h [] held f w
    | inr r ↦
        let none_writable : total_len (write_part (h ∷ [])) ≡ 0 = rw r refl in
        absurd (omega (arith, none_writable, some_room))
  ]
  find_write-WriteStart (suc k) desc h (h' ∷ t) held f rounds some_room =
      elim (Bool-cases (is_write h)) [
        | inl w ↦ found_here k desc h (h' ∷ t) held f w
        | inr r ↦
            let (desc', e, start, fewer) =
              find_write-WriteStart k (raw_desc m qs h.next) h' t
                (Holds-raw_desc m bounded qs h.next f.2) f.3 (omega arith) (rw r at some_room) in
            (
              desc',
              rw (held.holds, r, f.0, next_desc-done m bounded qs held f.1) e,
              rw r start,
              rw r (omega arith),
            )
      ]
