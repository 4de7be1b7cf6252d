-- ===== src/Virtio/Mmio/Registers.antt =====
-- The register offsets of virtio.c.
use mvvmm.Base.{ℕ, ◌==◌, if◌then◌else◌}

pub data Register : Type 0 where
  magic_value : Register
  version : Register
  device_id : Register
  vendor_id : Register
  device_features : Register
  device_features_sel : Register
  queue_sel : Register
  queue_num_max : Register
  queue_num : Register
  queue_ready : Register
  notify : Register
  interrupt_status : Register
  interrupt_ack : Register
  status : Register
  queue_desc_low : Register
  queue_desc_high : Register
  queue_avail_low : Register
  queue_avail_high : Register
  queue_used_low : Register
  queue_used_high : Register
  config_generation : Register
  other : Register

-- The label of the `switch` that an offset stands for.
unfoldable pub register_of : ℕ → Register
register_of offset =
    if offset == 0x000
    then magic_value
    else if offset == 0x004
    then version
    else if offset == 0x008
    then device_id
    else if offset == 0x00c
    then vendor_id
    else if offset == 0x010
    then device_features
    else if offset == 0x014
    then device_features_sel
    else if offset == 0x030
    then queue_sel
    else if offset == 0x034
    then queue_num_max
    else if offset == 0x038
    then queue_num
    else if offset == 0x044
    then queue_ready
    else if offset == 0x050
    then notify
    else if offset == 0x060
    then interrupt_status
    else if offset == 0x064
    then interrupt_ack
    else if offset == 0x070
    then status
    else if offset == 0x080
    then queue_desc_low
    else if offset == 0x084
    then queue_desc_high
    else if offset == 0x090
    then queue_avail_low
    else if offset == 0x094
    then queue_avail_high
    else if offset == 0x0a0
    then queue_used_low
    else if offset == 0x0a4
    then queue_used_high
    else if offset == 0x0fc
    then config_generation
    else other
