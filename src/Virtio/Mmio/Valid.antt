-- ===== src/Virtio/Mmio/Valid.antt =====
-- What holds of a device between two accesses.
use mvvmm.Base.{ℕ, ◌^◌, ◌≤◌, ◌<◌, ◌≡◌, length}
use mvvmm.Virtio.Device.{QueueState, max_queue, Device}

-- `num` is a power of two, `ready` a flag, and every field fits its type.
pub record IsValidQueue (q : QueueState) : Type 0 where
  pub power : (k : ℕ) × (q.num ≡ 2 ^ k)
  pub num : q.num < 2 ^ 32
  pub ready : q.ready < 2
  pub avail_idx : q.last_avail_idx < 2 ^ 16
  pub desc : q.desc_addr < 2 ^ 64
  pub avail : q.avail_addr < 2 ^ 64
  pub used : q.used_addr < 2 ^ 64

pub record IsValid (s : Device) : Type 0 where
  pub queue_sel : s.queue_sel < max_queue
  pub queue0 : IsValidQueue s.queue.queue0
  pub queue1 : IsValidQueue s.queue.queue1
  pub max_power : (k : ℕ) × (s.max_queue_num ≡ 2 ^ k)
  pub max_num : s.max_queue_num < 2 ^ 32
  pub int_status : s.int_status < 2 ^ 32
  pub status : s.status < 2 ^ 32
  pub features_sel : s.device_features_sel < 2 ^ 32
  pub features : s.device_features < 2 ^ 32
  pub device : s.device_id < 2 ^ 32
  pub vendor : s.vendor_id < 2 ^ 32
  pub config_whole : length s.config_space ≡ 256
  pub config_size : (4 ≤ s.config_space_size) × (s.config_space_size ≤ 256)
