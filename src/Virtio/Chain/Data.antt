-- ===== src/Virtio/Chain/Data.antt =====
-- The bytes that a list of descriptors stands for, and windows of them.
use mvvmm.Base.{
  ℕ, zero, suc, ◌+◌, ◌-◌, ◌^◌, ◌≤◌, ◌<◌, ◌≡◌, refl, ap, sym, ◌∙◌, Bool, List, [], ◌∷◌, ◌++◌,
  append_assoc, length, take, drop, arith, length-append,
}
use mvvmm.Guest.{GuestMem, bytes_at}
use mvvmm.Guest.Words.{length-bytes_at, bytes_at-append}
use mvvmm.Virtio.Chain.{VirtioDesc, is_write}
use mvvmm.Virtio.Chain.Sizes.{total_len}

-- The buffers of `ds`, end to end.
unfoldable pub data_of : GuestMem → List VirtioDesc → List ℕ
data_of m [] = []
data_of m (d ∷ ds) = bytes_at m.byte d.addr d.len ++ data_of m ds

-- A buffer inside the memory, of a length that an `int` holds.
abbrev pub InMemory : GuestMem → VirtioDesc → Type 0
InMemory m d = (d.addr + d.len ≤ m.size) × (d.len < 2 ^ 31)

-- All of them are readable (`w` false) or writable (`w` true) buffers inside the memory.
abbrev pub Buffers : Bool → GuestMem → List VirtioDesc → Type 0
Buffers w m [] = Unit {0}
Buffers w m (d ∷ ds) = (is_write d ≡ w) × InMemory m d × Buffers w m ds

pub length-data_of : (m : GuestMem) (ds : List VirtioDesc) → length (data_of m ds) ≡ total_len ds
unfolding data_of total_len
length-data_of m [] = refl
length-data_of m (d ∷ ds) = omega (
  arith,
  length-append (bytes_at m.byte d.addr d.len) (data_of m ds),
  length-bytes_at m.byte d.addr d.len,
  length-data_of m ds,
)

-- Dropping a whole front part.
pub drop-append {ℓ} :
    {A : Type ℓ} (xs ys : List A) (n : ℕ) → drop (length xs + n) (xs ++ ys) ≡ drop n ys
drop-append [] ys n = let start : 0 + n ≡ n = omega arith in rw start
drop-append (x ∷ xs) ys n =
    let step : suc (length xs) + n ≡ suc (length xs + n) = omega arith in
    rw step (drop-append xs ys n)

pub take-append {ℓ} :
    {A : Type ℓ} (xs ys : List A) (n : ℕ) → take (length xs + n) (xs ++ ys) ≡ xs ++ take n ys
take-append [] ys n = let start : 0 + n ≡ n = omega arith in rw start
take-append (x ∷ xs) ys n =
    let step : suc (length xs) + n ≡ suc (length xs + n) = omega arith in
    rw step (ap (◌∷◌ x) (take-append xs ys n))

module _ (f : ℕ → ℕ) (p : ℕ) (rest : List ℕ) where
  -- The part of a buffer behind `o`, with what follows the buffer.
  pub drop-bytes_at :
      (o len : ℕ)
      → o ≤ len
      → drop o (bytes_at f p len ++ rest) ≡ bytes_at f (p + o) (len - o) ++ rest
  drop-bytes_at o len h =
      let parts : o + (len - o) ≡ len = omega arith in
      let none : length (bytes_at f p o) + 0 ≡ o = omega (arith, length-bytes_at f p o) in
      let split : bytes_at f p len ++ rest
          ≡ bytes_at f p o ++ (bytes_at f (p + o) (len - o) ++ rest) =
        ap (λ k. bytes_at f p k ++ rest) (sym parts)
        ∙ ap (λ b. b ++ rest) (bytes_at-append f p o (len - o))
        ∙ append_assoc (bytes_at f p o) (bytes_at f (p + o) (len - o)) rest in
      rw split (
        ap (λ k. drop k (bytes_at f p o ++ (bytes_at f (p + o) (len - o) ++ rest))) (sym none)
        ∙ drop-append (bytes_at f p o) (bytes_at f (p + o) (len - o) ++ rest) 0)

-- A window that ends inside the buffer.
pub take-bytes_at :
    (f : ℕ → ℕ) (p : ℕ) (rest : List ℕ) (n len : ℕ)
    → n ≤ len
    → take n (bytes_at f p len ++ rest) ≡ bytes_at f p n
take-bytes_at f p rest zero len h = refl
take-bytes_at f p rest (suc n) zero h = absurd (omega arith)
take-bytes_at f p rest (suc n) (suc len) h =
    ap (◌∷◌ (f p)) (take-bytes_at f (p + 1) rest n len (omega arith))

module _ (m : GuestMem) (d : VirtioDesc) (ds : List VirtioDesc) (offset count : ℕ) where
  -- A window inside the first descriptor's buffer.
  pub window-inside :
      offset ≤ d.len
      → count ≤ d.len - offset
      → take count (drop offset (data_of m (d ∷ ds))) ≡ bytes_at m.byte (d.addr + offset) count
  unfolding data_of
  window-inside h fits =
      ap (take count) (drop-bytes_at m.byte d.addr (data_of m ds) offset d.len h)
      ∙ take-bytes_at m.byte (d.addr + offset) (data_of m ds) count (d.len - offset) fits

  -- A window that goes on into the next descriptors' buffers.
  pub window-across :
      offset ≤ d.len
      → d.len - offset ≤ count
      → take count (drop offset (data_of m (d ∷ ds)))
        ≡ bytes_at m.byte (d.addr + offset) (d.len - offset)
          ++ take (count - (d.len - offset)) (data_of m ds)
  unfolding data_of
  window-across h more =
      let front = bytes_at m.byte (d.addr + offset) (d.len - offset) in
      let parts : count ≡ length front + (count - (d.len - offset)) =
        omega (arith, length-bytes_at m.byte (d.addr + offset) (d.len - offset)) in
      ap (take count) (drop-bytes_at m.byte d.addr (data_of m ds) offset d.len h)
      ∙ ap (λ k. take k (front ++ data_of m ds)) parts
      ∙ take-append front (data_of m ds) (count - (d.len - offset))

  -- Behind the first buffer.
  pub window-behind :
      d.len ≤ offset → drop offset (data_of m (d ∷ ds)) ≡ drop (offset - d.len) (data_of m ds)
  unfolding data_of
  window-behind h =
      let parts : offset ≡ length (bytes_at m.byte d.addr d.len) + (offset - d.len) =
        omega (arith, length-bytes_at m.byte d.addr d.len) in
      ap (λ k. drop k (bytes_at m.byte d.addr d.len ++ data_of m ds)) parts
      ∙ drop-append (bytes_at m.byte d.addr d.len) (data_of m ds) (offset - d.len)
