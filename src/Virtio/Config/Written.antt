-- ===== src/Virtio/Config/Written.antt =====
-- What is written to the configuration space is read back.
use mvvmm.Base.{
  ℕ, zero, suc, ◌+◌, ◌*◌, ◌/◌, ◌%◌, ◌^◌, ◌≤◌, ◌<◌, ◌≡◌, ◌⊎◌, inl, inr, refl, ap, sym, ◌∙◌, List, [],
  ◌∷◌, ◌++◌, u8, sub32, length, take, drop, done, splice, read_buf, write_buf-done, read_buf-done,
  length-splice, bit_and, bit_or, arith, lt→ltb, ltb, true,
}
use mvvmm.Base.Bits.{bit_and_mask, bit_or_fields, bit_or_comm}
use mvvmm.Virtio.Device.{Device}
use mvvmm.Virtio.Config.{
  put_le16, put_le32, get_le16, get_le32, put_config, virtio_config_read, virtio_config_write,
}

window-splice :
    (buf : List ℕ) (pos : ℕ) (bs : List ℕ)
    → pos + length bs ≤ length buf
    → take (length bs) (drop pos (splice buf pos bs)) ≡ bs
unfolding splice
window-splice buf zero bs h = take-front bs (drop (length bs) buf)
  where
    take-front : (xs ys : List ℕ) → take (length xs) (xs ++ ys) ≡ xs
    take-front [] ys = refl
    take-front (x ∷ xs) ys = ap (◌∷◌ x) (take-front xs ys)
window-splice [] (suc pos) bs h = absurd (omega arith)
window-splice (x ∷ buf) (suc pos) bs h = window-splice buf pos bs (omega arith)

low_byte : (v : ℕ) → bit_and v 0xff ≡ v % 256
low_byte v = bit_and_mask 8 v

-- Two fields, the low one first.
two_fields : (k low high : ℕ) → low < 2 ^ k → bit_or low (high * 2 ^ k) ≡ high * 2 ^ k + low
two_fields k low high h = bit_or_comm low (high * 2 ^ k) ∙ bit_or_fields k high low h

get_le16-put_le16 : (v : ℕ) → get_le16 (put_le16 v) ≡ v % 2 ^ 16
unfolding get_le16 put_le16
get_le16-put_le16 v =
    rw (low_byte v, low_byte (v / 2 ^ 8), two_fields 8 (v % 256) (v / 2 ^ 8 % 256) (omega arith))
      (omega arith)

get_le32-put_le32 : (v : ℕ) → get_le32 (put_le32 v) ≡ v % 2 ^ 32
unfolding get_le32 put_le32
get_le32-put_le32 v =
    let b0 = v % 256 in
    let b1 = v / 2 ^ 8 % 256 in
    let b2 = v / 2 ^ 16 % 256 in
    let b3 = v / 2 ^ 24 % 256 in
    rw
      (
        low_byte v,
        low_byte (v / 2 ^ 8),
        low_byte (v / 2 ^ 16),
        low_byte (v / 2 ^ 24),
        two_fields 8 b0 b1 (omega arith),
        two_fields 16 (b1 * 2 ^ 8 + b0) b2 (omega arith),
        two_fields 24 (b2 * 2 ^ 16 + (b1 * 2 ^ 8 + b0)) b3 (omega arith),
      )
      (omega arith)

length-put_le16 : (v : ℕ) → length (put_le16 v) ≡ 2
unfolding put_le16
length-put_le16 v = refl

length-put_le32 : (v : ℕ) → length (put_le32 v) ≡ 4
unfolding put_le32
length-put_le32 v = refl

module _ (s : Device) (offset : ℕ) (whole : s.config_space_size ≤ length s.config_space)
    (large : 4 ≤ s.config_space_size) (small : s.config_space_size < 2 ^ 32) where
  abbrev written : List ℕ → Device
  written bs = record s { config_space = splice s.config_space offset bs }

  put_config-done :
      (bs : List ℕ)
      → offset + length bs ≤ length s.config_space
      → put_config s offset bs ≡ done (written bs)
  unfolding put_config
  put_config-done bs h = rw (write_buf-done s.config_space offset bs h) refl

  read_written :
      (bs : List ℕ) (n : ℕ)
      → length bs ≡ n
      → offset + length bs ≤ length s.config_space
      → read_buf (splice s.config_space offset bs) offset n ≡ done bs
  read_written bs n e h =
      ap (read_buf (splice s.config_space offset bs) offset) (sym e)
      ∙ read_buf-done (splice s.config_space offset bs) offset (length bs)
          (rw (length-splice s.config_space offset bs h) h)
      ∙ ap done (window-splice s.config_space offset bs h)

  -- A write of 1, 2 or 4 bytes that ends inside the configuration space of a device, of 4 bytes at
  -- least, which its array has, succeeds, and a read of the same size at the same offset gives
  -- back the low bytes of the value.
  pub config_read-config_write :
      (size val : ℕ)
      → (size ≡ 1) ⊎ (size ≡ 2) ⊎ (size ≡ 4)
      → offset + size ≤ s.config_space_size
      → (s' : Device) × (virtio_config_write s offset val size ≡ done s')
        × (virtio_config_read s' offset size ≡ done (val % 2 ^ (8 * size)))
  unfolding virtio_config_write virtio_config_read
  config_read-config_write size val (inl one) h =
      let bs = u8 val ∷ [] in
      let inside : ltb offset s.config_space_size ≡ true = lt→ltb (omega arith) in
      (
        written bs,
        rw (one, inside) (put_config-done bs (omega arith)),
        rw (one, inside, read_written bs 1 refl (omega arith)) refl,
      )
  config_read-config_write size val (inr (inl two)) h =
      let bs = put_le16 val in
      let inside : ltb offset (sub32 s.config_space_size 1) ≡ true = lt→ltb (omega arith) in
      (
        written bs,
        rw (two, inside) (put_config-done bs (omega (arith, length-put_le16 val))),
        rw
            (
              two,
              inside,
              read_written bs 2 (length-put_le16 val) (omega (arith, length-put_le16 val)),
            )
            (ap done (get_le16-put_le16 val)),
      )
  config_read-config_write size val (inr (inr four)) h =
      let bs = put_le32 val in
      let inside : ltb offset (sub32 s.config_space_size 3) ≡ true = lt→ltb (omega arith) in
      (
        written bs,
        rw (four, inside) (put_config-done bs (omega (arith, length-put_le32 val))),
        rw
            (
              four,
              inside,
              read_written bs 4 (length-put_le32 val) (omega (arith, length-put_le32 val)),
            )
            (ap done (get_le32-put_le32 val)),
      )
