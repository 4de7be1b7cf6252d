-- ===== src/Virtio/Config.antt =====
-- The little-endian helpers and the configuration space (virtio.c). `s->config_write` is NULL in
-- both devices, so a write calls nothing.
pub mod Written
use mvvmm.Base.{
  ℕ, ◌*◌, ◌/◌, ◌^◌, List, [], ◌∷◌, ltb, ◌==◌, if◌then◌else◌, u8, sub32, bit_and, bit_or, get_or,
  Outcome, done, aborted, ◌>>=◌, read_buf, write_buf,
}
use mvvmm.Virtio.Device.{Device}

-- The bytes that `put_le32` and `put_le16` write.
unfoldable pub put_le32 : ℕ → List ℕ
put_le32 val =
    bit_and val 0xff
    ∷ bit_and (val / 2 ^ 8) 0xff
    ∷ bit_and (val / 2 ^ 16) 0xff
    ∷ bit_and (val / 2 ^ 24) 0xff
    ∷ []

unfoldable pub put_le16 : ℕ → List ℕ
put_le16 val = bit_and val 0xff ∷ bit_and (val / 2 ^ 8) 0xff ∷ []

unfoldable pub get_le32 : List ℕ → ℕ
get_le32 p =
    bit_or (bit_or (bit_or (get_or p 0 0) (get_or p 1 0 * 2 ^ 8)) (get_or p 2 0 * 2 ^ 16))
      (get_or p 3 0 * 2 ^ 24)

unfoldable pub get_le16 : List ℕ → ℕ
get_le16 p = bit_or (get_or p 0 0) (get_or p 1 0 * 2 ^ 8)

-- `size` comes from the exit of the virtual CPU.
unfoldable pub virtio_config_read : Device → ℕ → ℕ → Outcome ℕ
virtio_config_read s offset size =
    if size == 1
    then if ltb offset s.config_space_size
      then (read_buf s.config_space offset 1 >>= λ p. done (get_or p 0 0))
      else done 0
    else if size == 2
    then if ltb offset (sub32 s.config_space_size 1)
      then (read_buf s.config_space offset 2 >>= λ p. done (get_le16 p))
      else done 0
    else if size == 4
    then if ltb offset (sub32 s.config_space_size 3)
      then (read_buf s.config_space offset 4 >>= λ p. done (get_le32 p))
      else done 0
    else aborted

-- Bytes into the configuration space.
unfoldable pub put_config : Device → ℕ → List ℕ → Outcome Device
put_config s offset bytes =
    write_buf s.config_space offset bytes >>= λ c. done (record s { config_space = c })

unfoldable pub virtio_config_write : Device → ℕ → ℕ → ℕ → Outcome Device
virtio_config_write s offset val size =
    if size == 1
    then if ltb offset s.config_space_size then put_config s offset (u8 val ∷ []) else done s
    else if size == 2
    then if ltb offset (sub32 s.config_space_size 1)
      then put_config s offset (put_le16 val)
      else done s
    else if size == 4
    then if ltb offset (sub32 s.config_space_size 3)
      then put_config s offset (put_le32 val)
      else done s
    else done s
