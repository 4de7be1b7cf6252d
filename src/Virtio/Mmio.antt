-- ===== src/Virtio/Mmio.antt =====
-- The MMIO registers of the device (virtio.c): `virtio_mmio_read` and `virtio_mmio_write`.
pub mod Registers
pub mod Words
pub mod Valid
pub mod Fields
pub mod Invariant
pub mod Reads
pub mod Addresses
use mvvmm.Base.{
  ℕ, zero, suc, ◌+◌, ◌-◌, ◌*◌, ◌/◌, ◌%◌, ◌^◌, Option, none, some, ◌∷◌, ltb, leb, ◌==◌, ◌&&◌,
  if◌then◌else◌, u32, sub32, bit_and, bit_or, Outcome, done, crash, ◌>>=◌,
}
use mvvmm.Virtio.Device.{
  QueueState, get_queue, set_queue, max_queue, Device, virtio_reset, set_line, Machine,
}
use mvvmm.Virtio.Queue.{Recv, queue_at, queue_notify}
use mvvmm.Virtio.Config.{virtio_config_read, virtio_config_write}
use Registers.*

-- `s->queue[s->queue_sel]`, read and written.
unfoldable pub selected : Device → Outcome QueueState
unfolding queue_at
selected s = queue_at s s.queue_sel

unfoldable pub on_selected : (QueueState → QueueState) → Device → Outcome Device
unfolding selected
on_selected f s =
    selected s >>= λ q. done (record s { queue = set_queue s.queue s.queue_sel (f q) })

-- The feature word that the driver selected.
unfoldable pub feature_word : Device → ℕ
feature_word s =
    if s.device_features_sel == 0
    then s.device_features
    else if s.device_features_sel == 1
    then 1
    else 0

-- The `switch` of `virtio_mmio_read`.
unfoldable pub read_register : Device → Register → Outcome ℕ
unfolding feature_word
read_register s magic_value = done 0x74726976
read_register s version = done 2
read_register s device_id = done s.device_id
read_register s vendor_id = done s.vendor_id
read_register s device_features = done (feature_word s)
read_register s device_features_sel = done s.device_features_sel
read_register s queue_sel = done s.queue_sel
read_register s queue_num_max = done s.max_queue_num
read_register s queue_num = selected s >>= λ q. done q.num
read_register s queue_ready = selected s >>= λ q. done q.ready
read_register s notify = done 0
read_register s interrupt_status = done s.int_status
read_register s interrupt_ack = done 0
read_register s status = done s.status
read_register s queue_desc_low = selected s >>= λ q. done (u32 q.desc_addr)
read_register s queue_desc_high = selected s >>= λ q. done (u32 (q.desc_addr / 2 ^ 32))
read_register s queue_avail_low = selected s >>= λ q. done (u32 q.avail_addr)
read_register s queue_avail_high = selected s >>= λ q. done (u32 (q.avail_addr / 2 ^ 32))
read_register s queue_used_low = selected s >>= λ q. done (u32 q.used_addr)
read_register s queue_used_high = selected s >>= λ q. done (u32 (q.used_addr / 2 ^ 32))
read_register s config_generation = done 0
read_register s other = done 0

abbrev pub mmio_config : ℕ
mmio_config = 0x100

unfoldable pub virtio_mmio_read : Device → ℕ → ℕ → Outcome ℕ
virtio_mmio_read s offset size =
    if leb mmio_config offset
    then virtio_config_read s (offset - mmio_config) size
    else if size == 4
    then read_register s (register_of offset)
    else done 0

-- `*paddr & ~(virtio_phys_addr_t)0xffffffff | val`
unfoldable pub set_low32 : ℕ → ℕ → ℕ
set_low32 paddr val = bit_or (bit_and paddr (2 ^ 64 - 2 ^ 32)) val

unfoldable pub set_high32 : ℕ → ℕ → ℕ
set_high32 paddr val = bit_or (bit_and paddr 0xffff_ffff) (val * 2 ^ 32)

module _ {B : Type 0} where
  -- A write that touches the device's own state only.
  unfoldable pub with_device : Machine B → Outcome Device → Outcome (Machine B)
  with_device s result = result >>= λ dev. done (record s { dev = dev })

  -- The write of the status register; 0 is a reset, and lowers the interrupt line.
  unfoldable pub write_status : Machine B → ℕ → Machine B
  write_status s val =
      let dev = record s.dev { status = val } in
      if val == 0
      then record s {
        dev = virtio_reset (record dev { int_status = 0 });
        irqs = set_line 0 ∷ s.irqs;
      }
      else record s { dev = dev }

  module _ (fuel chain_fuel : ℕ) (recv : Recv B) where
    -- The `switch` of `virtio_mmio_write`.
    unfoldable pub write_register : Machine B → Register → ℕ → Outcome (Machine B)
    unfolding with_device write_status
    write_register s magic_value val = done s
    write_register s version val = done s
    write_register s device_id val = done s
    write_register s vendor_id val = done s
    write_register s device_features val = done s
    write_register s device_features_sel val =
        done (record s { dev = record s.dev { device_features_sel = val } })
    write_register s queue_sel val =
        if ltb val max_queue
        then done (record s { dev = record s.dev { queue_sel = val } })
        else done s
    write_register s queue_num_max val = done s
    write_register s queue_num val =
        if (bit_and val (sub32 val 1) == 0) && ltb 0 val
        then with_device s (on_selected (λ q. record q { num = val }) s.dev)
        else done s
    write_register s queue_ready val =
        with_device s (on_selected (λ q. record q { ready = bit_and val 1 }) s.dev)
    write_register s notify val =
        if ltb val max_queue then queue_notify chain_fuel recv val fuel s else done s
    write_register s interrupt_status val = done s
    write_register s interrupt_ack val = done (record s {
      dev = record s.dev { int_status = bit_and s.dev.int_status (2 ^ 32 - 1 - val) };
    })
    write_register s status val = done (write_status s val)
    write_register s queue_desc_low val =
        with_device s (on_selected (λ q. record q { desc_addr = set_low32 q.desc_addr val }) s.dev)
    write_register s queue_desc_high val =
        with_device s (on_selected (λ q. record q { desc_addr = set_high32 q.desc_addr val }) s.dev)
    write_register s queue_avail_low val =
        with_device s
          (on_selected (λ q. record q { avail_addr = set_low32 q.avail_addr val }) s.dev)
    write_register s queue_avail_high val =
        with_device s
          (on_selected (λ q. record q { avail_addr = set_high32 q.avail_addr val }) s.dev)
    write_register s queue_used_low val =
        with_device s (on_selected (λ q. record q { used_addr = set_low32 q.used_addr val }) s.dev)
    write_register s queue_used_high val =
        with_device s (on_selected (λ q. record q { used_addr = set_high32 q.used_addr val }) s.dev)
    write_register s config_generation val = done s
    write_register s other val = done s

    unfoldable pub virtio_mmio_write : Machine B → ℕ → ℕ → ℕ → Outcome (Machine B)
    unfolding with_device
    virtio_mmio_write s offset val size =
        if leb mmio_config offset
        then with_device s (virtio_config_write s.dev (offset - mmio_config) val size)
        else if size == 4
        then write_register s (register_of offset) val
        else done s
