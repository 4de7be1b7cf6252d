-- ===== src/Virtio/Chain/Spread.antt =====
-- Bytes written over the buffers of a list of descriptors: the memory that is left, what it keeps,
-- and the data of the descriptors in it.
use mvvmm.Base.{
  ℕ, zero, suc, ◌+◌, ◌-◌, ◌≤◌, ◌<◌, ◌≡◌, ◌⊎◌, inl, inr, refl, ap, ap₂, sym, ◌∙◌, false, List, [],
  ◌∷◌, ◌++◌, leb, if◌then◌else◌, Bool-cases, length, take, drop, splice, length-take, length-drop,
  arith, le→leb, splice-append, splice-behind, splice-across,
}
use native.Mathlib.Decide.{dec_le}
use mvvmm.Guest.{GuestMem, bytes_at, overlay}
use mvvmm.Guest.Frame.{
  overlay-outside, bytes_at_ext, bytes_at-overlay_outside, bytes_at-overlay_self,
}
use mvvmm.Guest.Words.{length-bytes_at, bytes_at-append}
use mvvmm.Virtio.Memory.CopyTo.{stored, stored-nil}
use mvvmm.Virtio.Chain.{VirtioDesc}
use mvvmm.Virtio.Chain.Sizes.{total_len}
use mvvmm.Virtio.Chain.Data.{data_of}

-- The memory once `bs` is written over the buffers of `ds`, end to end, from `offset` on.
unfoldable pub scattered : GuestMem → List VirtioDesc → ℕ → List ℕ → GuestMem
scattered m [] offset bs = m
scattered m (d ∷ ds) offset bs =
    let c = d.len - offset in
    let rest = scattered (stored m (d.addr + offset) (take c bs)) ds (offset - d.len) (drop c bs) in
    if leb (length bs) c then stored m (d.addr + offset) bs else rest

-- Every buffer ends before `lo` or begins at `hi` or behind.
abbrev pub Apart : ℕ → ℕ → List VirtioDesc → Type 0
Apart lo hi [] = Unit {0}
Apart lo hi (d ∷ ds) = ((d.addr + d.len ≤ lo) ⊎ (hi ≤ d.addr)) × Apart lo hi ds

-- No two buffers overlap.
abbrev pub Separate : List VirtioDesc → Type 0
Separate [] = Unit {0}
Separate (d ∷ ds) = Apart d.addr (d.addr + d.len) ds × Separate ds

pub scattered-skip :
    (m : GuestMem) (d : VirtioDesc) (ds : List VirtioDesc) (offset : ℕ) (bs : List ℕ)
    → d.len ≤ offset
    → 0 < length bs
    → scattered m (d ∷ ds) offset bs ≡ scattered m ds (offset - d.len) bs
unfolding scattered
scattered-skip m d ds offset bs far some_bytes =
    let none : d.len - offset ≡ 0 = omega arith in
    let more : leb (length bs) 0 ≡ false = ground arith in
    rw (none, more, stored-nil m (d.addr + offset)) refl

pub scattered-inside :
    (m : GuestMem) (d : VirtioDesc) (ds : List VirtioDesc) (offset : ℕ) (bs : List ℕ)
    → length bs ≤ d.len - offset
    → scattered m (d ∷ ds) offset bs ≡ stored m (d.addr + offset) bs
unfolding scattered
scattered-inside m d ds offset bs inside = rw (le→leb inside) refl

pub scattered-across :
    (m : GuestMem) (d : VirtioDesc) (ds : List VirtioDesc) (offset : ℕ) (bs : List ℕ)
    → offset ≤ d.len
    → d.len - offset < length bs
    → scattered m (d ∷ ds) offset bs
      ≡ scattered
          (stored m (d.addr + offset) (take (d.len - offset) bs))
          ds
          0
          (drop (d.len - offset) bs)
unfolding scattered
scattered-across m d ds offset bs near across =
    let more : leb (length bs) (d.len - offset) ≡ false = ground arith in
    let start : offset - d.len ≡ 0 = omega arith in rw (more, start) refl

pub size-scattered :
    (m : GuestMem) (ds : List VirtioDesc) (offset : ℕ) (bs : List ℕ)
    → (scattered m ds offset bs).size ≡ m.size
unfolding scattered
size-scattered m [] offset bs = refl
size-scattered m (d ∷ ds) offset bs = elim (Bool-cases (leb (length bs) (d.len - offset))) [
  | inl e ↦ rw e refl
  | inr e ↦ rw e (
      size-scattered (stored m (d.addr + offset) (take (d.len - offset) bs)) ds (offset - d.len)
        (drop (d.len - offset) bs))
]

-- Bytes apart from every buffer stay.
pub scattered-outside :
    (m : GuestMem) (ds : List VirtioDesc) (offset : ℕ) (bs : List ℕ) (p : ℕ)
    → Apart p (p + 1) ds
    → (scattered m ds offset bs).byte p ≡ m.byte p
unfolding scattered
scattered-outside m [] offset bs p apart = refl
scattered-outside m (d ∷ ds) offset bs p (apart, others) =
    elim (Bool-cases (leb (length bs) (d.len - offset))) [
      | inl e ↦ rw e (overlay-outside m.byte (d.addr + offset) bs p (ground arith))
      | inr e ↦
          let c = d.len - offset in
          rw e (
            scattered-outside (stored m (d.addr + offset) (take c bs)) ds (offset - d.len)
              (drop c bs) p others
            ∙ overlay-outside m.byte (d.addr + offset) (take c bs) p
                (ground (arith, length-take c bs)))
    ]

pub Apart-narrow :
    (ds : List VirtioDesc) (lo hi lo' hi' : ℕ)
    → Apart lo hi ds
    → lo ≤ lo'
    → hi' ≤ hi
    → Apart lo' hi' ds
Apart-narrow [] lo hi lo' hi' a l h = tt
Apart-narrow (d ∷ ds) lo hi lo' hi' (a, others) l h =
    (ground arith, Apart-narrow ds lo hi lo' hi' others l h)

-- So a load of bytes apart from every buffer finds what stood there.
pub bytes_at-scattered :
    (m : GuestMem) (ds : List VirtioDesc) (offset : ℕ) (bs : List ℕ) (p n : ℕ)
    → Apart p (p + n) ds
    → bytes_at (scattered m ds offset bs).byte p n ≡ bytes_at m.byte p n
bytes_at-scattered m ds offset bs p n apart = bytes_at_ext _ m.byte p n λ q lo hi.
    scattered-outside m ds offset bs q (Apart-narrow ds p (p + n) q (q + 1) apart lo (omega arith))

data_of-stored :
    (m : GuestMem) (ds : List VirtioDesc) (p : ℕ) (bs : List ℕ)
    → Apart p (p + length bs) ds
    → data_of (stored m p bs) ds ≡ data_of m ds
unfolding data_of
data_of-stored m [] p bs a = refl
data_of-stored m (d ∷ ds) p bs (a, others) =
    ap₂ ◌++◌ (bytes_at-overlay_outside m.byte p bs d.addr d.len (ground arith))
      (data_of-stored m ds p bs others)

drop_behind : (xs ys : List ℕ) (n : ℕ) → length xs ≡ n → drop n (xs ++ ys) ≡ ys
drop_behind [] ys zero e = refl
drop_behind [] ys (suc n) e = absurd (omega arith)
drop_behind (x ∷ xs) ys zero e = absurd (omega arith)
drop_behind (x ∷ xs) ys (suc n) e = drop_behind xs ys n (omega arith)

-- A store into a buffer, as the buffer's bytes show it.
bytes_at-overlay_inside :
    (f : ℕ → ℕ) (p o n : ℕ) (bs : List ℕ)
    → o + length bs ≤ n
    → bytes_at (overlay f (p + o) bs) p n ≡ splice (bytes_at f p n) o bs
unfolding splice
bytes_at-overlay_inside f p zero n bs h =
    let start : p + 0 ≡ p = omega arith in
    let r = n - length bs in
    let whole : n ≡ length bs + r = omega arith in
    let behind : drop (length bs) (bytes_at f p (length bs + r)) ≡ bytes_at f (p + length bs) r =
      ap (drop (length bs)) (bytes_at-append f p (length bs) r)
      ∙ drop_behind (bytes_at f p (length bs)) (bytes_at f (p + length bs) r) (length bs)
          (length-bytes_at f p (length bs)) in
    rw (start, whole, behind)
      (bytes_at-append (overlay f p bs) p (length bs) r
        ∙ ap₂ ◌++◌ (bytes_at-overlay_self f p bs)
            (bytes_at-overlay_outside f p bs (p + length bs) r (inr (omega arith))))
bytes_at-overlay_inside f p (suc o) zero bs h = absurd (omega arith)
bytes_at-overlay_inside f p (suc o) (suc n) bs h =
    let step : p + suc o ≡ p + 1 + o = omega arith in
    ap₂ ◌∷◌ (overlay-outside f (p + suc o) bs p (inl (omega arith))) (
      ap (λ a. bytes_at (overlay f a bs) (p + 1) n) step
      ∙ bytes_at-overlay_inside f (p + 1) o n bs (omega arith))

-- Written over buffers that do not overlap, the bytes are in the data of the descriptors from
-- `offset` on, and the rest of the data is as before.
pub data_of-scattered :
    (m : GuestMem) (ds : List VirtioDesc) (offset : ℕ) (bs : List ℕ)
    → Separate ds
    → 0 < length bs
    → offset + length bs ≤ total_len ds
    → data_of (scattered m ds offset bs) ds ≡ splice (data_of m ds) offset bs
unfolding data_of total_len
data_of-scattered m [] offset bs sep pos fits = absurd (omega arith)
data_of-scattered m (d ∷ ds) offset bs (apart, sep) pos fits = elim (dec_le d.len offset) [
  | yes far ↦
      let there : length (bytes_at m.byte d.addr d.len) + (offset - d.len) ≡ offset =
        omega (arith, length-bytes_at m.byte d.addr d.len) in
      ap (λ g. data_of g (d ∷ ds)) (scattered-skip m d ds offset bs far pos)
      ∙ ap₂ ◌++◌ (bytes_at-scattered m ds (offset - d.len) bs d.addr d.len apart)
          (data_of-scattered m ds (offset - d.len) bs sep pos (omega arith))
      ∙ sym (splice-behind (bytes_at m.byte d.addr d.len) (data_of m ds) (offset - d.len) bs)
      ∙ ap (λ o. splice (bytes_at m.byte d.addr d.len ++ data_of m ds) o bs) there
  | no near ↦ elim (dec_le (length bs) (d.len - offset)) [
    | yes inside ↦
        ap (λ g. data_of g (d ∷ ds)) (scattered-inside m d ds offset bs inside)
        ∙ ap₂ ◌++◌ (bytes_at-overlay_inside m.byte d.addr offset d.len bs (omega arith)) (
            data_of-stored m ds (d.addr + offset) bs (
              Apart-narrow ds d.addr (d.addr + d.len) (d.addr + offset)
                (d.addr + offset + length bs) apart (omega arith) (omega arith)))
        ∙ sym (
            splice-append (bytes_at m.byte d.addr d.len) (data_of m ds) offset bs
              (omega (arith, length-bytes_at m.byte d.addr d.len)))
    | no across ↦
        let c = d.len - offset in
        let m1 = stored m (d.addr + offset) (take c bs) in
        let taken : length (take c bs) ≡ c = omega (arith, length-take c bs) in
        ap (λ g. data_of g (d ∷ ds)) (scattered-across m d ds offset bs (omega arith) (omega arith))
        ∙ ap₂ ◌++◌
            (bytes_at-scattered m1 ds 0 (drop c bs) d.addr d.len apart
              ∙ bytes_at-overlay_inside m.byte d.addr offset d.len (take c bs) (omega arith))
            (data_of-scattered m1 ds 0 (drop c bs) sep (omega (arith, length-drop c bs))
                (omega (arith, length-drop c bs))
              ∙ ap (λ b. splice b 0 (drop c bs))
                  (data_of-stored m ds (d.addr + offset) (take c bs) (
                    Apart-narrow ds d.addr (d.addr + d.len) (d.addr + offset)
                      (d.addr + offset + length (take c bs)) apart (omega arith) (omega arith))))
        ∙ sym (
            splice-across (bytes_at m.byte d.addr d.len) (data_of m ds) offset c bs
              (omega (arith, length-bytes_at m.byte d.addr d.len)) (omega arith))
  ]
]
