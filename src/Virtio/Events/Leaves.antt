-- ===== src/Virtio/Events/Leaves.antt =====
-- The descriptors that the initialisation of a device leaves open.
use mvvmm.Base.{
  ℕ, ◌≡◌, ◌≢◌, refl, ap, ◌∙◌, Bool, true, false, ◌&&◌, List, ◌∷◌, ◌==◌, eq→==, ne→==, if◌then◌else◌,
  success, failure,
}
use mvvmm.Virtio.Events.{
  EventFd, no_fd, refused, taken, close, new_fd, virtio_irqfd_init, virtio_irqfd_cleanup, ioeventfd,
  set_ioeventfd, virtio_ioeventfd_register, virtio_ioeventfd_unregister, InitCalls,
  virtio_ioeventfd_start, virtio_ioeventfd_stop, virtio_destroy, init_events, no_fds,
}

unfoldable pub is_taken : EventFd → Bool
is_taken no_fd = false
is_taken (refused fd) = false
is_taken (taken fd) = true

-- Whether every call succeeds.
unfoldable pub all_taken : InitCalls → Bool
unfolding is_taken
all_taken c = is_taken c.irq && is_taken c.queue0 && is_taken c.queue1 && c.thread

-- Two descriptors that are open at once differ.
abbrev pub Differ : EventFd → EventFd → Type 0
Differ no_fd e = Unit {0}
Differ (refused fd) e = Unit {0}
Differ (taken fd) no_fd = Unit {0}
Differ (taken fd) (refused fd') = Unit {0}
Differ (taken fd) (taken fd') = fd' ≢ fd

-- The descriptor of the interrupt, on top of the others.
unfoldable pub with_irq : EventFd → List ℕ → List ℕ
with_irq no_fd fds = fds
with_irq (refused fd) fds = fds
with_irq (taken fd) fds = fd ∷ fds

close-head : (fd : ℕ) (fds : List ℕ) → close fd (fd ∷ fds) ≡ fds
unfolding close
close-head fd fds = let same : (fd == fd) ≡ true = eq→== refl in rw same refl

close-below : (fd other : ℕ) (fds : List ℕ) → other ≢ fd → close fd (other ∷ fd ∷ fds) ≡ other ∷ fds
unfolding close
close-below fd other fds ne = let same : (fd == fd) ≡ true = eq→== refl in rw (ne→== ne, same) refl

-- What is open in the end: behind a success, once the device is destroyed.
abbrev pub open_at_end : InitCalls → List ℕ → List ℕ
open_at_end c fds =
    let s = (init_events c (no_fds fds)).1 in
    if all_taken c then (virtio_destroy s).open_fds else s.open_fds

abbrev Result : EventFd → EventFd → EventFd → Bool → List ℕ → Type 0
Result irq queue0 queue1 thread fds =
    let c : InitCalls = record { irq = irq; queue0 = queue0; queue1 = queue1; thread = thread } in
    ((init_events c (no_fds fds)).0 ≡ (if all_taken c then success else failure))
    × (open_at_end c fds ≡ (if all_taken c then fds else with_irq irq fds))

result :
    (irq queue0 queue1 : EventFd) (thread : Bool) (fds : List ℕ)
    → Differ queue0 queue1
    → Result irq queue0 queue1 thread fds
unfolding new_fd virtio_irqfd_init virtio_irqfd_cleanup ioeventfd set_ioeventfd
    virtio_ioeventfd_register virtio_ioeventfd_unregister virtio_ioeventfd_start
    virtio_ioeventfd_stop virtio_destroy init_events no_fds all_taken with_irq
result no_fd e0 e1 t fds d = (refl, refl)
result (refused a) e0 e1 t fds d = (refl, close-head a fds)
result (taken a) no_fd e1 t fds d = (refl, refl)
result (taken a) (refused b) e1 t fds d = (refl, close-head b (a ∷ fds))
result (taken a) (taken b) no_fd t fds d = (refl, close-head b (a ∷ fds))
result (taken a) (taken b) (refused c) t fds d =
    (refl, ap (close b) (close-head c (b ∷ a ∷ fds)) ∙ close-head b (a ∷ fds))
result (taken a) (taken b) (taken c) true fds d = (
  refl,
  ap (λ l. close a (close c l)) (close-below b c (a ∷ fds) d)
      ∙ ap (close a) (close-head c (a ∷ fds))
      ∙ close-head a fds,
)
result (taken a) (taken b) (taken c) false fds d =
    (refl, ap (close c) (close-below b c (a ∷ fds) d) ∙ close-head c (a ∷ fds))

-- The event descriptors of a device, where the two of its queues differ: the initialisation succeeds
-- exactly if all its calls do, and then the destruction of the device closes again all that it has
-- opened and nothing else; where it fails, all that it has opened is closed but the descriptor of
-- the interrupt, which stays open exactly if KVM had taken it.
pub init_events-open_at_end :
    (c : InitCalls) (fds : List ℕ)
    → Differ c.queue0 c.queue1
    → ((init_events c (no_fds fds)).0 ≡ (if all_taken c then success else failure))
      × (open_at_end c fds ≡ (if all_taken c then fds else with_irq c.irq fds))
init_events-open_at_end c fds d = result c.irq c.queue0 c.queue1 c.thread fds d
