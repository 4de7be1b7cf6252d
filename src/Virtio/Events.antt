-- ===== src/Virtio/Events.antt =====
-- Event file descriptors (virtio.c): the irqfd and the ioeventfds of a device, the thread that polls
-- them, and the initialisation of the two devices. What the calls of the system return is an input.
pub mod Leaves
pub mod Poll
pub mod Owed
pub mod Served
use mvvmm.Base.{
  ℕ, ◌+◌, ◌*◌, ◌/◌, ◌^◌, Bool, true, false, Option, none, some, List, [], ◌∷◌, ◌++◌, ◌==◌,
  if◌then◌else◌, u32, drop, set, splice, Outcome, done, crash, out_of_fuel, ◌>>=◌, Code, success,
  failure,
}
use mvvmm.Virtio.Device.{QueueState, Device, Machine, virtio_init}
use mvvmm.Virtio.Queue.{Recv, queue_notify}
use mvvmm.Virtio.Config.{put_le32}

-- `eventfd` and the `ioctl` that gives the descriptor to KVM: no descriptor, one that KVM refuses, or one
-- that it takes.
pub data EventFd : Type 0 where
  no_fd : EventFd
  refused : ℕ → EventFd
  taken : ℕ → EventFd

-- What comes of a thread that `pthread_join` waits for, by what it has still to do: it ends, it uses
-- memory that has been unmapped or freed, or it goes on.
pub data Ending : Type 0 where
  ended faulted running : Ending

unfoldable pub join : {A : Type 0} → Ending → Outcome A → Outcome A
join ended rest = rest
join faulted rest = crash
join running rest = out_of_fuel

-- `irq.irqfd`, `ioeventfd[2]` and `ioeventfd_enabled` of a device, `none` being -1, and the
-- descriptors that the process has open.
pub record Fds : Type 0 where
  pub irqfd : Option ℕ
  pub ioeventfd0 : Option ℕ
  pub ioeventfd1 : Option ℕ
  pub ioeventfd_enabled : Bool
  pub open_fds : List ℕ

unfoldable pub close : ℕ → List ℕ → List ℕ
close fd [] = []
close fd (other ∷ fds) = if other == fd then fds else other ∷ close fd fds

-- A descriptor that KVM takes stays open.
unfoldable pub new_fd : EventFd → List ℕ → Option ℕ × List ℕ
new_fd no_fd fds = (none, fds)
new_fd (refused fd) fds = (none, close fd (fd ∷ fds))
new_fd (taken fd) fds = (some fd, fd ∷ fds)

unfoldable pub virtio_irqfd_init : EventFd → Fds → Code × Fds
unfolding new_fd
virtio_irqfd_init made s =
    let (fd, fds) = new_fd made s.open_fds in
    elim fd [
      | none ↦ (failure, record s { open_fds = fds })
      | some n ↦ (success, record s { irqfd = some n; open_fds = fds })
    ]

unfoldable pub virtio_irqfd_cleanup : Fds → Fds
virtio_irqfd_cleanup s = elim s.irqfd [
  | none ↦ s
  | some fd ↦ record s { irqfd = none; open_fds = close fd s.open_fds }
]

-- `ioeventfd[queue_idx]`, for the queues 0 and 1.
unfoldable pub ioeventfd : Fds → Bool → Option ℕ
ioeventfd s second = if second then s.ioeventfd1 else s.ioeventfd0

unfoldable pub set_ioeventfd : Fds → Bool → Option ℕ → List ℕ → Fds
set_ioeventfd s second fd fds =
    if second
    then record s { ioeventfd1 = fd; open_fds = fds }
    else record s { ioeventfd0 = fd; open_fds = fds }

unfoldable pub virtio_ioeventfd_register : EventFd → Fds → Bool → Code × Fds
unfolding new_fd set_ioeventfd
virtio_ioeventfd_register made s second =
    let (fd, fds) = new_fd made s.open_fds in
    elim fd [
      | none ↦ (failure, record s { open_fds = fds })
      | some n ↦ (success, set_ioeventfd s second (some n) fds)
    ]

unfoldable pub virtio_ioeventfd_unregister : Fds → Bool → Fds
unfolding ioeventfd set_ioeventfd
virtio_ioeventfd_unregister s second = elim (ioeventfd s second) [
  | none ↦ s
  | some fd ↦ set_ioeventfd s second none (close fd s.open_fds)
]

-- The results of the calls: the three descriptors and `pthread_create`.
pub record InitCalls : Type 0 where
  pub irq : EventFd
  pub queue0 : EventFd
  pub queue1 : EventFd
  pub thread : Bool

unfoldable pub virtio_ioeventfd_start : InitCalls → Fds → Code × Fds
unfolding virtio_ioeventfd_register virtio_ioeventfd_unregister
virtio_ioeventfd_start c s =
    let (code0, s0) = virtio_ioeventfd_register c.queue0 s false in
    let (code1, s1) = virtio_ioeventfd_register c.queue1 s0 true in
    let stopped =
      virtio_ioeventfd_unregister
        (virtio_ioeventfd_unregister (record s1 { ioeventfd_enabled = false }) false) true in
    elim code0 [
      | failure ↦ (failure, s0)
      | success ↦ elim code1 [
        | failure ↦ (failure, virtio_ioeventfd_unregister s1 false)
        | success ↦
            if c.thread
            then (success, record s1 { ioeventfd_enabled = true })
            else (failure, stopped)
      ]
    ]

unfoldable pub virtio_ioeventfd_stop : Fds → Fds
unfolding virtio_ioeventfd_unregister
virtio_ioeventfd_stop s =
    virtio_ioeventfd_unregister
      (virtio_ioeventfd_unregister (record s { ioeventfd_enabled = false }) false) true

-- `virtio_block_destroy` and `virtio_net_destroy`, without the `free`.
unfoldable pub virtio_destroy : Fds → Fds
unfolding virtio_ioeventfd_stop virtio_irqfd_cleanup
virtio_destroy s = virtio_irqfd_cleanup (virtio_ioeventfd_stop s)

-- The end of `virtio_init`.
unfoldable pub init_events : InitCalls → Fds → Code × Fds
unfolding virtio_irqfd_init virtio_ioeventfd_start
init_events c s =
    let (code, s') = virtio_irqfd_init c.irq s in
    elim code [ failure ↦ (failure, s') | success ↦ virtio_ioeventfd_start c s' ]

-- The descriptors before it, where `open_fds` are those of the rest of the process.
unfoldable pub no_fds : List ℕ → Fds
no_fds open_fds = record {
  irqfd = none;
  ioeventfd0 = none;
  ioeventfd1 = none;
  ioeventfd_enabled = false;
  open_fds = open_fds;
}

-- The device with the size of the disk in its configuration space, or `none` for NULL.
unfoldable pub virtio_block_init : InitCalls → List ℕ → ℕ → Option Device × Fds
unfolding init_events no_fds
virtio_block_init c open_fds nb_sectors =
    let (code, fds) = init_events c (no_fds open_fds) in
    let dev = virtio_init 2 8 8 in
    let low = splice dev.config_space 0 (put_le32 (u32 nb_sectors)) in
    let both = splice low 4 (put_le32 (u32 (nb_sectors / 2 ^ 32))) in
    elim code [
      | failure ↦ (none, fds)
      | success ↦ (some (record dev { irqfd = fds.irqfd; config_space = both }), fds)
    ]

unfoldable pub virtio_net_init : InitCalls → List ℕ → List ℕ → Option Device × Fds
unfolding init_events no_fds
virtio_net_init c open_fds mac_addr =
    let (code, fds) = init_events c (no_fds open_fds) in
    let dev = virtio_init 1 8 32 in
    let queue0 = record dev.queue.queue0 { manual_recv = true } in
    let config_space = set (set (splice dev.config_space 0 mac_addr) 6 0) 7 0 in
    elim code [
      | failure ↦ (none, fds)
      | success ↦ (
        some (record dev {
          irqfd = fds.irqfd;
          device_features = 32;
          queue = record dev.queue { queue0 = queue0 };
          config_space = config_space;
        }),
        fds,
      )
    ]
