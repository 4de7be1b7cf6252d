-- ===== src/Virtio/Device.antt =====
-- `struct queue_state` and `struct virtio_device` of virtio.c, and the reset of the device.
use mvvmm.Guest.{GuestMem}
use mvvmm.Base.{ℕ, Bool, false, Option, none, some, List, ◌==◌, if◌then◌else◌, replicate}

pub record QueueState : Type 0 where
  pub ready : ℕ
  pub num : ℕ
  pub last_avail_idx : ℕ
  pub desc_addr : ℕ
  pub avail_addr : ℕ
  pub used_addr : ℕ
  pub manual_recv : Bool

abbrev pub max_queue : ℕ
max_queue = 2

-- `queue[MAX_QUEUE]`.
pub record Queues : Type 0 where
  pub queue0 : QueueState
  pub queue1 : QueueState

-- `none`: an index outside the array.
unfoldable pub get_queue : Queues → ℕ → Option QueueState
get_queue qs i = if i == 0 then some qs.queue0 else if i == 1 then some qs.queue1 else none

unfoldable pub set_queue : Queues → ℕ → QueueState → Queues
set_queue qs i q =
    if i == 0 then record qs { queue0 = q } else if i == 1 then record qs { queue1 = q } else qs

-- The fields that the handlers read and write. The lock is held by every handler from its first
-- line to its last. `irqfd` is `none` for -1.
pub record Device : Type 0 where
  pub int_status : ℕ
  pub status : ℕ
  pub device_features_sel : ℕ
  pub queue_sel : ℕ
  pub queue : Queues
  pub device_id : ℕ
  pub vendor_id : ℕ
  pub device_features : ℕ
  pub config_space_size : ℕ
  pub config_space : List ℕ
  pub max_queue_num : ℕ
  pub irqfd : Option ℕ

-- One round of the loop of `virtio_reset`; `manual_recv` stays.
unfoldable pub reset_queue : ℕ → QueueState → QueueState
reset_queue max_num q = record q {
  avail_addr = 0;
  desc_addr = 0;
  used_addr = 0;
  last_avail_idx = 0;
  ready = 0;
  num = max_num;
}

unfoldable pub virtio_reset : Device → Device
unfolding reset_queue
virtio_reset s = record s {
  status = 0;
  queue_sel = 0;
  device_features_sel = 0;
  int_status = 0;
  queue = record {
    queue0 = reset_queue s.max_queue_num s.queue.queue0;
    queue1 = reset_queue s.max_queue_num s.queue.queue1;
  };
}

-- What `memset(s, 0, sizeof(*s))` leaves.
unfoldable pub zero_queue : QueueState
zero_queue = record {
  ready = 0;
  num = 0;
  last_avail_idx = 0;
  desc_addr = 0;
  avail_addr = 0;
  used_addr = 0;
  manual_recv = false;
}

-- The part of `virtio_init` before the event file descriptors are set up.
unfoldable pub virtio_init : ℕ → ℕ → ℕ → Device
unfolding virtio_reset zero_queue
virtio_init device_id config_space_size max_queue_num = virtio_reset (record {
  int_status = 0;
  status = 0;
  device_features_sel = 0;
  queue_sel = 0;
  queue = record { queue0 = zero_queue; queue1 = zero_queue };
  device_id = device_id;
  vendor_id = 0xffff;
  device_features = 0;
  config_space_size = config_space_size;
  config_space = replicate 256 0;
  max_queue_num = max_queue_num;
  irqfd = none;
})

-- What the device does to the interrupt lines of the virtual machine.
pub data IrqEvent : Type 0 where
  signal_irqfd : ℕ → IrqEvent
  set_line : ℕ → IrqEvent

-- The device at work: its own state, the guest's memory, the interrupts that it raised, latest
-- first, and the state `B` of what serves its requests.
pub record Machine (B : Type 0) : Type 0 where
  pub dev : Device
  pub mem : GuestMem
  pub irqs : List IrqEvent
  pub backend : B
