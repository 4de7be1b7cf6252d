-- ===== src/Guest/Frame.antt =====
-- What a store leaves alone, and what a load finds after it.
use mvvmm.Base.{
  ℕ, zero, suc, ◌+◌, ◌-◌, ◌≤◌, ◌<◌, ◌≡◌, refl, ap₂, ◌∙◌, ◌⊎◌, List, [], ◌∷◌, arith, length, get_or,
  le→leb, lt→ltb, done, ap, length-append, get_or-append, fun_ext, ◌++◌,
}
use mvvmm.Guest.{GuestMem, bytes_at, overlay, load_bytes, store_bytes}

pub load_bytes-done :
    (m : GuestMem) (p n : ℕ) → p + n ≤ m.size → load_bytes m p n ≡ done (bytes_at m.byte p n)
unfolding load_bytes
load_bytes-done m p n h = rw (le→leb h)

pub store_bytes-done :
    (m : GuestMem) (p : ℕ) (bs : List ℕ)
    → p + length bs ≤ m.size
    → store_bytes m p bs ≡ done (record m { byte = overlay m.byte p bs })
unfolding store_bytes
store_bytes-done m p bs h = rw (le→leb h)

pub overlay-outside :
    (f : ℕ → ℕ) (p : ℕ) (bs : List ℕ) (q : ℕ)
    → (q < p) ⊎ (p + length bs ≤ q)
    → overlay f p bs q ≡ f q
unfolding overlay
overlay-outside f p bs q h = ground arith

pub overlay-inside :
    (f : ℕ → ℕ) (p : ℕ) (bs : List ℕ) (i : ℕ)
    → i < length bs
    → overlay f p bs (p + i) ≡ get_or bs i 0
unfolding overlay
overlay-inside f p bs i h =
    let back : p + i - p ≡ i = omega arith in
    rw (
      le→leb {a = p} {b = p + i} (omega arith),
      lt→ltb {a = p + i} {b = p + length bs} (omega arith),
      back,
    )

pub overlay-nil : (f : ℕ → ℕ) (p q : ℕ) → overlay f p [] q ≡ f q
unfolding overlay
overlay-nil f p q = ground arith

-- A later store covers, byte by byte, what stood there.
pub bytes_at_ext :
    (f g : ℕ → ℕ) (p n : ℕ)
    → ((q : ℕ) → p ≤ q → q < p + n → f q ≡ g q)
    → bytes_at f p n ≡ bytes_at g p n
bytes_at_ext f g p zero h = refl
bytes_at_ext f g p (suc n) h =
    ap₂ ◌∷◌ (h p (omega arith) (omega arith))
      (bytes_at_ext f g (p + 1) n (λ q a b. h q (omega arith) (omega arith)))

-- A load away from a store finds what stood there.
pub bytes_at-overlay_outside :
    (f : ℕ → ℕ) (p : ℕ) (bs : List ℕ) (q n : ℕ)
    → (q + n ≤ p) ⊎ (p + length bs ≤ q)
    → bytes_at (overlay f p bs) q n ≡ bytes_at f q n
bytes_at-overlay_outside f p bs q n apart =
    bytes_at_ext (overlay f p bs) f q n λ r a b. overlay-outside f p bs r (ground arith)

overlay-cons :
    (f : ℕ → ℕ) (p b : ℕ) (bs : List ℕ) (q : ℕ)
    → p + 1 ≤ q
    → overlay f p (b ∷ bs) q ≡ overlay f (p + 1) bs q
unfolding overlay
overlay-cons f p b bs q h =
    let shift : q - p ≡ suc (q - (p + 1)) = omega arith in rw shift (ground arith)

overlay-head : (f : ℕ → ℕ) (p b : ℕ) (bs : List ℕ) → overlay f p (b ∷ bs) p ≡ b
unfolding overlay
overlay-head f p b bs = let back : p - p ≡ 0 = omega arith in rw back (ground arith)

-- A load of what was just stored finds it.
pub bytes_at-overlay_self :
    (f : ℕ → ℕ) (p : ℕ) (bs : List ℕ) → bytes_at (overlay f p bs) p (length bs) ≡ bs
bytes_at-overlay_self f p [] = refl
bytes_at-overlay_self f p (b ∷ bs) = ap₂ ◌∷◌ (overlay-head f p b bs) (
    bytes_at_ext _ (overlay f (p + 1) bs) (p + 1) (length bs)
      (λ q a c. overlay-cons f p b bs q (omega arith))
    ∙ bytes_at-overlay_self f (p + 1) bs)

sub_add : (q p n : ℕ) → q - (p + n) ≡ q - p - n
sub_add q p n = omega arith

-- Two stores end to end are one.
pub overlay-overlay :
    (f : ℕ → ℕ) (p : ℕ) (xs ys : List ℕ)
    → overlay (overlay f p xs) (p + length xs) ys ≡ overlay f p (xs ++ ys)
unfolding overlay
overlay-overlay f p xs ys = fun_ext λ q. ground (
  arith,
  length-append xs ys,
  get_or-append xs ys (q - p) 0,
  ap (λ (i : ℕ). get_or ys i 0) (sub_add q p (length xs)),
)
