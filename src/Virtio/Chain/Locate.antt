-- ===== src/Virtio/Chain/Locate.antt =====
-- `find_offset` finds the descriptor that holds the offset.
use mvvmm.Base.{
  ℕ, zero, suc, ◌+◌, ◌-◌, ◌^◌, ◌≤◌, ◌<◌, ◌≡◌, refl, sym, ◌∙◌, Bool, true, false, List, [], ◌∷◌,
  ◌==◌, some, sub32, bit_and, lt→ltb, not-lt→ltb, length, drop, arith, done,
}
use mvvmm.Base.Bits.{bit_and-two}
use native.Mathlib.Decide.{dec_lt}
use mvvmm.Guest.{GuestMem}
use mvvmm.Virtio.Device.{QueueState}
use mvvmm.Virtio.Chain.{
  VirtioDesc, has_next, is_write, f_write, f_write_flag, next_desc, max_rounds, find_offset,
}
use mvvmm.Virtio.Chain.Layout.{
  raw_desc, desc_at, InTable, Follows, Holds, Holds-raw_desc, get_desc-next,
}
use mvvmm.Virtio.Chain.Sizes.{total_len}
use mvvmm.Virtio.Chain.Data.{data_of, Buffers, window-behind}
use mvvmm.Virtio.Chain.Spread.{scattered, scattered-skip}
use mvvmm.Virtio.Chain.Table.{Safe}

-- The test of the loops against the direction.
pub flag_test :
    (w : Bool) (d : VirtioDesc)
    → is_write d ≡ w
    → (bit_and d.flags f_write == f_write_flag w) ≡ true
unfolding is_write
flag_test true d h = ground (arith, bit_and-two d.flags)
flag_test false d h = ground arith

-- The walk from `idx` begins with `d` and `ds`, which are all readable (`w` false) or all writable
-- (`w` true) buffers in the memory, no more of them than the loops allow. It may go on behind them.
pub record Front (w : Bool) (m : GuestMem) (qs : QueueState) (idx : ℕ) (d : VirtioDesc)
    (ds : List VirtioDesc) : Type 0 where
  pub in_table : InTable m qs idx
  pub head : desc_at m qs idx ≡ d
  pub follows : Follows m qs d ds
  pub buffers : Buffers w m (d ∷ ds)
  pub short : length (d ∷ ds) ≤ max_rounds

module _ (m : GuestMem) (bounded : m.size < 2 ^ 64) (qs : QueueState) where
  pub next_desc-done :
      {desc : List ℕ} {d : VirtioDesc}
      → Holds desc d
      → InTable m qs d.next
      → next_desc m qs desc ≡ done (some (raw_desc m qs d.next))
  unfolding next_desc
  next_desc-done h t = rw (get_desc-next m bounded qs h t)

module _ (w : Bool) (m : GuestMem) (qs : QueueState) where
  -- `inner` in the buffer of the descriptor that `desc` holds is `offset` in those of `d ∷ ds`.
  pub record Located (offset : ℕ) (d : VirtioDesc) (ds : List VirtioDesc) (desc : List ℕ)
      (inner : ℕ) : Type 0 where
    pub here : VirtioDesc
    pub rest : List VirtioDesc
    pub held : Holds desc here
    pub follows : Follows m qs here rest
    pub buffers : Buffers w m (here ∷ rest)
    pub fewer : length rest ≤ length ds
    pub inside : inner < here.len
    pub same : drop inner (data_of m (here ∷ rest)) ≡ drop offset (data_of m (d ∷ ds))
    pub left : inner + total_len (d ∷ ds) ≡ offset + total_len (here ∷ rest)
    pub skips :
        (bs : List ℕ)
        → 0 < length bs
        → scattered m (d ∷ ds) offset bs ≡ scattered m (here ∷ rest) inner bs
    pub safe : (entries : ℕ) → Safe qs entries (d ∷ ds) → Safe qs entries (here ∷ rest)

module _ {w : Bool} {m : GuestMem} {qs : QueueState} where
  at_once :
      {offset : ℕ} {d : VirtioDesc} {ds : List VirtioDesc} {desc : List ℕ}
      → Holds desc d
      → Follows m qs d ds
      → Buffers w m (d ∷ ds)
      → offset < d.len
      → Located w m qs offset d ds desc offset
  at_once {d} {ds} h f b lt = record {
    here = d;
    rest = ds;
    held = h;
    follows = f;
    buffers = b;
    fewer = omega arith;
    inside = lt;
    same = refl;
    left = refl;
    skips = λ bs pos. refl;
    safe = λ entries s. s;
  }

  Located-behind :
      {offset inner : ℕ} {d d' : VirtioDesc} {ds : List VirtioDesc} {desc : List ℕ}
      → Located w m qs (offset - d.len) d' ds desc inner
      → d.len ≤ offset
      → Located w m qs offset d (d' ∷ ds) desc inner
  unfolding total_len
  Located-behind {offset} {d} {d'} {ds} found ge = record {
    here = found.here;
    rest = found.rest;
    held = found.held;
    follows = found.follows;
    buffers = found.buffers;
    fewer = omega (arith, found.fewer);
    inside = found.inside;
    same = found.same ∙ sym (window-behind m d (d' ∷ ds) offset 0 ge);
    left = omega (arith, found.left);
    skips = λ bs pos. scattered-skip m d (d' ∷ ds) offset bs ge pos ∙ found.skips bs pos;
    safe = λ entries s. found.safe entries (s.0.1, s.1.1);
  }

module _ (w : Bool) (m : GuestMem) (bounded : m.size < 2 ^ 64) (qs : QueueState) where
  find_offset-here :
      (k : ℕ) (desc : List ℕ) (d : VirtioDesc) (offset : ℕ)
      → Holds desc d
      → is_write d ≡ w
      → offset < d.len
      → find_offset (suc k) m qs (f_write_flag w) desc offset ≡ done (some (desc, offset))
  unfolding find_offset
  find_offset-here k desc d offset h r lt = rw (h.holds, flag_test w d r, lt→ltb lt)

  find_offset-next :
      (k : ℕ) (desc : List ℕ) (d : VirtioDesc) (offset : ℕ)
      → Holds desc d
      → is_write d ≡ w
      → d.len ≤ offset
      → offset < 2 ^ 32
      → has_next d ≡ true
      → InTable m qs d.next
      → find_offset (suc k) m qs (f_write_flag w) desc offset
        ≡ find_offset k m qs (f_write_flag w) (raw_desc m qs d.next) (offset - d.len)
  unfolding find_offset
  find_offset-next k desc d offset h r ge small more t =
      let rest : sub32 offset d.len ≡ offset - d.len = omega arith in
      rw (next_desc-done m bounded qs h t, h.holds, flag_test w d r, not-lt→ltb ge, more, rest)

  pub find_offset-Located :
      (k : ℕ) (desc : List ℕ) (d : VirtioDesc) (ds : List VirtioDesc) (offset : ℕ)
      → Holds desc d
      → Follows m qs d ds
      → Buffers w m (d ∷ ds)
      → length ds < k
      → offset < 2 ^ 32
      → offset < total_len (d ∷ ds)
      → (desc' : List ℕ) × (inner : ℕ) × (find_offset k m qs (f_write_flag w) desc offset
          ≡ done (some (desc', inner)))
        × Located w m qs offset d ds desc' inner
  unfolding total_len
  find_offset-Located zero desc d ds offset h f b rounds small lt = absurd (omega arith)
  find_offset-Located (suc k) desc d [] offset h f b rounds small lt = (
    desc,
    offset,
    find_offset-here k desc d offset h b.0 (omega arith),
    at_once h f b (omega arith),
  )
  find_offset-Located (suc k) desc d (d' ∷ ds) offset h f b rounds small lt =
      elim (dec_lt offset d.len) [
        | yes p ↦ (desc, offset, find_offset-here k desc d offset h b.0 p, at_once h f b p)
        | no n ↦
            let (desc', inner, e, found) =
              find_offset-Located k (raw_desc m qs d.next) d' ds (offset - d.len)
                (Holds-raw_desc m bounded qs d.next f.2) f.3 b.2 (omega arith) (omega arith)
                (omega arith) in
            (
              desc',
              inner,
              find_offset-next k desc d offset h b.0 (omega arith) small f.0 f.1 ∙ e,
              Located-behind found (omega arith),
            )
      ]
