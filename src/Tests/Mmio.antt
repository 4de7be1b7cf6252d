-- ===== src/Tests/Mmio.antt =====
-- Runs of the registers.
use mvvmm.Base.{◌<◌, ℕ, ◌+◌, ◌*◌, ◌^◌, ◌≤◌, ◌≡◌, ◌⊎◌, refl, done, aborted, arith}
use mvvmm.Virtio.Device.{QueueState, Machine}
use mvvmm.Virtio.Block.{virtio_block_recv_request}
use mvvmm.Virtio.Block.Validity.{virtio_block_recv_request-ServesValid}
use mvvmm.Virtio.Mmio.{selected, virtio_mmio_read, virtio_mmio_write}
use mvvmm.Virtio.Mmio.Valid.{IsValidQueue, IsValid}
use mvvmm.Virtio.Mmio.Invariant.{KeepsValid, virtio_mmio_write-IsValid}
use mvvmm.Virtio.Mmio.Reads.{Succeeds, IsConfigSize, virtio_mmio_read-total}
use mvvmm.Virtio.Mmio.Addresses.{available, area_addr, address_written}
use mvvmm.Tests.Fixture.{machine, queue_from}
use mvvmm.Tests.Queue.{disk}

queue-IsValid : IsValidQueue (queue_from 0)
queue-IsValid = record {
  power = (3, refl);
  num = omega arith;
  ready = omega arith;
  avail_idx = omega arith;
  desc = omega arith;
  avail = omega arith;
  used = omega arith;
}

pub machine-IsValid : IsValid machine.dev
machine-IsValid = record {
  queue_sel = omega arith;
  queue0 = queue-IsValid;
  queue1 = queue-IsValid;
  max_power = (7, refl);
  max_num = omega arith;
  int_status = omega arith;
  status = omega arith;
  features_sel = omega arith;
  features = omega arith;
  device = omega arith;
  vendor = omega arith;
  config_whole = refl;
  config_size = (omega arith, omega arith);
}

-- The driver kicks queue 0.
virtio_mmio_write-IsValid_example :
    KeepsValid (virtio_mmio_write 2 3 (virtio_block_recv_request disk) machine 0x50 0 4)
virtio_mmio_write-IsValid_example =
    virtio_mmio_write-IsValid 3 (virtio_block_recv_request disk)
      (virtio_block_recv_request-ServesValid disk) 2 machine 0x50 0 4 (omega arith) machine-IsValid

virtio_mmio_read-total_example :
    (Succeeds (virtio_mmio_read machine.dev 0x100 8) × ((0x100 < 0x100) ⊎ IsConfigSize 8))
    ⊎ ((virtio_mmio_read machine.dev 0x100 8 ≡ aborted) × (0x100 ≤ 0x100) × (¬ IsConfigSize 8))
virtio_mmio_read-total_example = virtio_mmio_read-total machine.dev 0x100 8 machine-IsValid

address_written_example :
    (s' s'' : Machine ℕ) × (q : QueueState) × (virtio_mmio_write 2 3
        (virtio_block_recv_request disk)
        machine
        0x90
        0x1000
        4
      ≡ done s')
    × (virtio_mmio_write 2 3 (virtio_block_recv_request disk) s' 0x94 5 4 ≡ done s'')
    × (selected s''.dev ≡ done q)
    × (area_addr available q ≡ 5 * 2 ^ 32 + 0x1000)
    × (virtio_mmio_read s''.dev 0x90 4 ≡ done 0x1000)
    × (virtio_mmio_read s''.dev 0x94 4 ≡ done 5)
    × (s''.mem ≡ machine.mem)
    × (s''.irqs ≡ machine.irqs)
address_written_example =
    address_written 2 3 (virtio_block_recv_request disk) available machine 0x1000 5 machine-IsValid
      (omega arith) (omega arith)
