-- ===== src/Disk/Order.antt =====
-- The requests that wait in the pool may be carried out in any order.
use mathlib.Core.List.{Perm, Permᴰ}
use mathlib.Core.Logic.{∥∥₁_elim}
use mvvmm.Base.{
  ℕ, ap₂, ◌+◌, ◌-◌, ◌≤◌, ◌≡◌, refl, ap, sym, subst, ◌∙◌, ◌⊎◌, inl, inr, Bool-cases, List, [], ◌∷◌,
  leb, ltb, get_or, ◌&&◌, if◌then◌else◌, length, length-take, take, Code, success, arith,
}
use mvvmm.Guest.{overlay}
use mvvmm.Disk.{FileOps, AsyncIoReq, io_result, block_io_worker_fn}
use mvvmm.Disk.Sectors.{IsFile, io_result-success}

-- The worker carries the requests out one after the other, each with success; the latest is the
-- first of the list.
pub data Serves {F : Type 0} (ops : FileOps F) : F → List AsyncIoReq → F → Type 0 where
  here : {f : F} → Serves ops f [] f
  more :
      {f g h : F} {r : AsyncIoReq} {rs : List AsyncIoReq} (buf' : List ℕ)
      → Serves ops f rs g
      → block_io_worker_fn ops g r ≡ (success, buf', h)
      → Serves ops f (r ∷ rs) h

-- The bytes of a file behind a request, and behind several.
unfoldable pub behind : (ℕ → ℕ) → AsyncIoReq → ℕ → ℕ
behind f r p = if r.is_write then overlay f r.offset (take r.count r.buf) p else f p

unfoldable pub behind_all : (ℕ → ℕ) → List AsyncIoReq → ℕ → ℕ
behind_all f [] = f
behind_all f (r ∷ rs) = behind (behind_all f rs) r

-- The ranges of the file do not meet.
abbrev pub Disjoint : AsyncIoReq → AsyncIoReq → Type 0
Disjoint r r' = (r.offset + r.count ≤ r'.offset) ⊎ (r'.offset + r'.count ≤ r.offset)

abbrev pub DisjointFrom : AsyncIoReq → List AsyncIoReq → Type 0
DisjointFrom r [] = Unit {0}
DisjointFrom r (r' ∷ rs) = Disjoint r r' × DisjointFrom r rs

abbrev pub AllDisjoint : List AsyncIoReq → Type 0
AllDisjoint [] = Unit {0}
AllDisjoint (r ∷ rs) = DisjointFrom r rs × AllDisjoint rs

flip : (r r' : AsyncIoReq) → Disjoint r r' → Disjoint r' r
flip r r' (inl h) = inr h
flip r r' (inr h) = inl h

overlay_ext :
    (f g : ℕ → ℕ) (a : ℕ) (bs : List ℕ)
    → ((p : ℕ) → f p ≡ g p)
    → (p : ℕ) → overlay f a bs p ≡ overlay g a bs p
unfolding overlay
overlay_ext f g a bs same p =
    ap (λ v. if leb a p && ltb p (a + length bs) then get_or bs (p - a) 0 else v) (same p)

behind_ext :
    (f g : ℕ → ℕ) (r : AsyncIoReq) → ((p : ℕ) → f p ≡ g p) → (p : ℕ) → behind f r p ≡ behind g r p
unfolding behind
behind_ext f g r same p = elim (Bool-cases r.is_write) [
  | inl w ↦ rw w (overlay_ext f g r.offset (take r.count r.buf) same p)
  | inr n ↦ rw n (same p)
]

overlay_swap :
    (f : ℕ → ℕ) (a b : ℕ) (xs ys : List ℕ) (p : ℕ)
    → (a + length xs ≤ b) ⊎ (b + length ys ≤ a)
    → overlay (overlay f a xs) b ys p ≡ overlay (overlay f b ys) a xs p
unfolding overlay
overlay_swap f a b xs ys p apart = ground arith

behind_swap :
    (f : ℕ → ℕ) (r r' : AsyncIoReq) (p : ℕ)
    → Disjoint r r'
    → behind (behind f r) r' p ≡ behind (behind f r') r p
unfolding behind
behind_swap f r r' p apart = elim (Bool-cases r.is_write) [
  | inl w ↦ elim (Bool-cases r'.is_write) [
    | inl w' ↦
        rw (w, w')
          (overlay_swap f r.offset r'.offset (take r.count r.buf) (take r'.count r'.buf) p
            (ground (arith, length-take r.count r.buf, length-take r'.count r'.buf, apart)))
    | inr n' ↦ rw (w, n') refl
  ]
  | inr n ↦ elim (Bool-cases r'.is_write) [ inl w' ↦ rw (n, w') refl | inr n' ↦ rw (n, n') refl ]
]

DisjointFrom-permuted :
    (r : AsyncIoReq) {rs rs' : List AsyncIoReq}
    → Permᴰ rs rs'
    → DisjointFrom r rs
    → DisjointFrom r rs'
DisjointFrom-permuted r Permᴰ.nil apart = tt
DisjointFrom-permuted r (Permᴰ.cons e d) (h, t) =
    (subst (Disjoint r) e h, DisjointFrom-permuted r d t)
DisjointFrom-permuted r (Permᴰ.swap e e') (h, (h', t)) =
    (subst (Disjoint r) e' h', (subst (Disjoint r) e h, t))
DisjointFrom-permuted r (Permᴰ.trans d d') apart =
    DisjointFrom-permuted r d' (DisjointFrom-permuted r d apart)

-- Two orders of the same requests: the ranges are disjoint in the other too.
AllDisjoint-permuted : {rs rs' : List AsyncIoReq} → Permᴰ rs rs' → AllDisjoint rs → AllDisjoint rs'
AllDisjoint-permuted Permᴰ.nil apart = tt
AllDisjoint-permuted (Permᴰ.cons {a = a} {l₂ = l'} e d) (h, t) =
    (subst (λ r. DisjointFrom r l') e (DisjointFrom-permuted a d h), AllDisjoint-permuted d t)
AllDisjoint-permuted (Permᴰ.swap {a = a} {b = b} {b' = b'} {l = l} e e')
      ((h, from_a), (from_b, t)) =
    subst (λ r. AllDisjoint (r ∷ b' ∷ l)) e'
      (subst (λ r. AllDisjoint (b ∷ r ∷ l)) e ((flip a b h, from_b), (from_a, t)))
AllDisjoint-permuted (Permᴰ.trans d d') apart =
    AllDisjoint-permuted d' (AllDisjoint-permuted d apart)

behind_all-permuted :
    (f : ℕ → ℕ) {rs rs' : List AsyncIoReq}
    → Permᴰ rs rs'
    → AllDisjoint rs
    → (p : ℕ) → behind_all f rs p ≡ behind_all f rs' p
unfolding behind_all
behind_all-permuted f Permᴰ.nil apart p = refl
behind_all-permuted f (Permᴰ.cons {a = a} {l₁ = l} {l₂ = l'} e d) (h, t) p =
    behind_ext (behind_all f l) (behind_all f l') a (behind_all-permuted f d t) p
    ∙ ap (λ r. behind (behind_all f l') r p) e
behind_all-permuted f (Permᴰ.swap {a = a} {b = b} {b' = b'} {l = l} e e') ((h, from_a), (from_b, t))
      p =
    behind_swap (behind_all f l) b a p (flip a b h)
    ∙ ap (λ r. behind (behind (behind_all f l) r) b p) e
    ∙ ap (λ r. behind (behind (behind_all f l) b') r p) e'
behind_all-permuted f (Permᴰ.trans d d') apart p =
    behind_all-permuted f d apart p ∙ behind_all-permuted f d' (AllDisjoint-permuted d apart) p

module _ {F : Type 0} (ops : FileOps F) (byte : F → ℕ → ℕ) (file : IsFile ops byte) where
  served :
      (f g : F) (r : AsyncIoReq) (buf' : List ℕ)
      → block_io_worker_fn ops f r ≡ (success, buf', g)
      → (p : ℕ) → byte g p ≡ behind (byte f) r p
  unfolding block_io_worker_fn behind
  served f g r buf' e p = elim (Bool-cases r.is_write) [
    | inl w ↦
        let done_all : (
          io_result (ops.pwrite f r.buf r.count r.offset).0 r.count,
          r.buf,
          (ops.pwrite f r.buf r.count r.offset).1,
        )
            ≡ (success, buf', g) =
          rw w at e in
        let count =
          io_result-success (ops.pwrite f r.buf r.count r.offset).0 r.count
            (ap (λ x. x.0) done_all) in
        rw w (
          (file.writes f g r.buf r.count r.offset r.count
              (ap₂ (λ o k. (o, k)) count (ap (λ x. x.2) done_all))).1
            p)
    | inr n ↦
        let done_all : (
          io_result (ops.pread f r.buf r.count r.offset).0 r.count,
          (ops.pread f r.buf r.count r.offset).1,
          f,
        )
            ≡ (success, buf', g) =
          rw n at e in
        rw n (ap (λ (x : Code × List ℕ × F). byte x.2 p) (sym done_all))
  ]

  all_served :
      {f h : F} {rs : List AsyncIoReq}
      → Serves ops f rs h
      → (p : ℕ) → byte h p ≡ behind_all (byte f) rs p
  unfolding behind_all
  all_served here p = refl
  all_served {f = f} {rs = r ∷ rs} (more {g = g} {h = h} buf' rest e) p =
      served g h r buf' e p ∙ behind_ext (byte g) (behind_all (byte f) rs) r (all_served rest) p

  -- The same requests in two orders, their ranges of the file disjoint, all carried out with success
  -- from the same file: the file has the same bytes in the end.
  pub block_io_worker_fn-order :
      (f h h' : F) (rs rs' : List AsyncIoReq)
      → Perm rs rs'
      → AllDisjoint rs
      → Serves ops f rs h
      → Serves ops f rs' h'
      → (p : ℕ) → byte h p ≡ byte h' p
  block_io_worker_fn-order f h h' rs rs' perm apart serves serves' =
      let same : Permᴰ rs rs' → (p : ℕ) → byte h p ≡ byte h' p = λ d p.
        all_served serves p ∙ behind_all-permuted (byte f) d apart p ∙ sym (all_served serves' p) in
      let prop : IsProp ((p : ℕ) → byte h p ≡ byte h' p) = hlevel in ∥∥₁_elim perm prop same
