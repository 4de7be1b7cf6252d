-- ===== src/Vmm/Setup/Destroy.antt =====
-- `mvvm_destroy`, against what `mvvm_init` has made.
use mvvmm.Base.{ℕ, Bool, Option, none, some, List, [], ◌∷◌, Outcome, done, crash, ◌>>=◌}
use mvvmm.Disk.Setup.{mvvm_destroy_virtio_blk}
use mvvmm.Tap.Setup.{mvvm_destroy_virtio_net}
use mvvmm.Disk.Setup as DiskSetup
use mvvmm.Tap.Setup as TapSetup
use mvvmm.Virtio.Events.{Ending}
use mvvmm.Tap.{Readiness}
use mvvmm.Vmm.Setup.{Mvvm}

-- What has been given back, and what the process still holds of the devices.
pub record Destroyed : Type 0 where
  pub unmapped : ℕ
  pub closed : List (Option ℕ)
  pub disk : List DiskSetup.Resource
  pub tap : List TapSetup.Resource

-- What comes of the threads of the devices, once the memory of the guest is unmapped: the workers of the disk
-- and the thread of its ioeventfds, what the thread that brings packets is still given, and the thread of the
-- ioeventfds of the interface.
pub record Threads : Type 0 where
  pub workers : Ending
  pub blk_poller : Ending
  pub packets : List (Readiness × Bool)
  pub net_poller : Ending

-- `disk` and `tap` are what the process holds for the devices. The memory is unmapped and the descriptors
-- are closed first.
unfoldable pub mvvm_destroy :
    Threads → Mvvm → List DiskSetup.Resource → List TapSetup.Resource → Outcome Destroyed
mvvm_destroy threads self disk tap = elim self.mem_map [
  | none ↦ crash
  | some m ↦ do
    disk' ← mvvm_destroy_virtio_blk threads.workers threads.blk_poller self.blk disk
    tap' ← mvvm_destroy_virtio_net threads.packets threads.net_poller self.net tap
    done (record {
      unmapped = m.size;
      closed = self.cpu_fd ∷ self.vm_fd ∷ self.kvm_fd ∷ [];
      disk = disk';
      tap = tap';
    })
]
