-- ===== src/Tap/Setup/Branches.antt =====
-- What `mvvm_init_virtio_net` comes to.
use mvvmm.Base.{
  ap, sym, ◌∙◌, inl, inr, Bool-cases, none-some, ℕ, ◌≡◌, refl, ◌&&◌, Bool, true, false, Option,
  none, some, List, [], ◌∷◌, if◌then◌else◌, take, success, failure,
}
use mvvmm.Virtio.Device.{Device}
use mvvmm.Virtio.Events.{InitCalls, init_events, no_fds, virtio_net_init}
use mvvmm.Virtio.Events.Leaves.{all_taken, Differ, with_irq, init_events-open_at_end}
use mvvmm.Tap.Setup.{
  context, descriptor, ether_device, virtio, thread, Calls, if_name, fail_label, net_device_of,
  net_fds_of, Made, made, start_net, mvvm_init_virtio_net,
}

-- The name that the interface has in the end, if all the calls before virtio_net_init succeed.
unfoldable pub interface_name : Calls → List ℕ → Option (List ℕ)
interface_name c tap_ifname = elim (c.tunsetiff (take 15 tap_ifname)) [
  | none ↦ none
  | some name ↦ if c.malloc_ctx && c.open_tun && c.malloc_net then some (take 15 name) else none
]

-- What the set-up comes to, by what its two stages have given: the name of the interface, and whether the
-- device is made.
unfoldable pub outcome_of : Calls → Option Device → Option (List ℕ) → Option Device → Made
outcome_of c net none dev = made failure net [] [] c.open_fds
outcome_of c net (some name) none = made failure none [] [] (with_irq c.events.irq c.open_fds)
outcome_of c net (some name) (some dev) =
    if c.pthread_create
    then made success (some dev) name (context ∷ descriptor ∷ ether_device ∷ virtio ∷ thread ∷ [])
        (net_fds_of c)
    else made failure (some dev) [] (virtio ∷ []) (net_fds_of c)

-- A virtio_net_init that has failed leaves the descriptor of the interrupt open, if KVM had taken it.
net_fds_of-failed :
    (c : Calls)
    → Differ c.events.queue0 c.events.queue1
    → net_device_of c ≡ none
    → net_fds_of c ≡ with_irq c.events.irq c.open_fds
unfolding net_device_of net_fds_of virtio_net_init
net_fds_of-failed c d no_device =
    let (code, left) = init_events-open_at_end c.events c.open_fds d in
    elim (Bool-cases (all_taken c.events)) [
      | inl all ↦
          let good : (init_events c.events (no_fds c.open_fds)).0 ≡ success = rw all at code in
          absurd (none-some (sym (rw (net_device_of, virtio_net_init, good) at no_device)))
      | inr some_failed ↦
          let bad : (init_events c.events (no_fds c.open_fds)).0 ≡ failure =
            rw some_failed at code in
          rw (net_fds_of, virtio_net_init, bad) (rw some_failed at left)
    ]

module _ (events : InitCalls) (open_fds : List ℕ) (tap_ifname : List ℕ) (net : Option Device) where
  abbrev calls : Bool → Bool → (List ℕ → Option (List ℕ)) → Bool → Bool → Calls
  calls ctx tun setiff ether starts = record {
    malloc_ctx = ctx;
    open_tun = tun;
    tunsetiff = setiff;
    malloc_net = ether;
    events = events;
    open_fds = open_fds;
    pthread_create = starts;
  }

  -- What a virtio_net_init that has failed leaves.
  abbrev Leaves : Calls → Type 0
  Leaves c = net_device_of c ≡ none → net_fds_of c ≡ with_irq c.events.irq c.open_fds

  abbrev Comes : Calls → Type 0
  Comes c =
      mvvm_init_virtio_net c tap_ifname net
      ≡ outcome_of c net (interface_name c tap_ifname) (net_device_of c)

  starts_net :
      (c : Calls) (name : List ℕ) (dev : Option Device) (starts : Bool)
      → Leaves c
      → net_device_of c ≡ dev
      → c.pthread_create ≡ starts
      → start_net c name ≡ outcome_of c net (some name) dev
  unfolding start_net outcome_of fail_label
  starts_net c name none starts d e f = rw (start_net, e) (ap (made failure none [] []) (d e))
  starts_net c name (some dev) true d e f = rw (start_net, e, f) refl
  starts_net c name (some dev) false d e f = rw (start_net, e, f) refl

  comes :
      (ctx tun : Bool) (setiff : List ℕ → Option (List ℕ)) (o : Option (List ℕ))
      (ether starts : Bool)
      → Leaves (calls ctx tun setiff ether starts)
      → setiff (take 15 tap_ifname) ≡ o
      → Comes (calls ctx tun setiff ether starts)
  unfolding mvvm_init_virtio_net interface_name outcome_of fail_label if_name
  comes false tun setiff none ether starts d e = rw e refl
  comes false tun setiff (some name) ether starts d e = rw e refl
  comes true false setiff none ether starts d e = rw e refl
  comes true false setiff (some name) ether starts d e = rw e refl
  comes true true setiff none ether starts d e = rw e refl
  comes true true setiff (some name) false starts d e = rw e refl
  comes true true setiff (some name) true starts d e = rw e (
      starts_net (calls true true setiff true starts) (take 15 name)
        (net_device_of (calls true true setiff true starts)) starts d refl refl)

-- Where all the calls succeed, the device is the one of virtio_net_init.
pub mvvm_init_virtio_net-made :
    (c : Calls) (tap_ifname : List ℕ) (net : Option Device) {name : List ℕ} {dev : Device}
    → interface_name c tap_ifname ≡ some name
    → net_device_of c ≡ some dev
    → c.pthread_create ≡ true
    → mvvm_init_virtio_net c tap_ifname net
      ≡ made success
          (some dev)
          name
          (context ∷ descriptor ∷ ether_device ∷ virtio ∷ thread ∷ [])
          (net_fds_of c)
unfolding outcome_of
mvvm_init_virtio_net-made c tap_ifname net e f g =
    comes c.events c.open_fds tap_ifname net c.malloc_ctx c.open_tun c.tunsetiff
      (c.tunsetiff (take 15 tap_ifname)) c.malloc_net c.pthread_create
      (λ no_device. absurd (none-some (sym no_device ∙ f))) refl
    ∙ rw (e, f, g) refl

-- `mvvm_init_virtio_net`, where the two ioeventfds differ, asks for the interface by the first 15
-- characters of the name, and succeeds exactly if all its calls do, virtio_net_init and pthread_create
-- among them. It then holds everything, and the context has the name that the kernel gave, again no
-- more than 15 characters. Where a call before virtio_net_init fails, nothing is left, and no more
-- descriptors are open than before; where virtio_net_init fails, nothing but the descriptor of the
-- interrupt, which stays open exactly if KVM had taken it; where only pthread_create fails, the virtio
-- device is left with its descriptors, and `self->net` still points to it.
pub mvvm_init_virtio_net-outcome :
    (c : Calls) (tap_ifname : List ℕ) (net : Option Device)
    → Differ c.events.queue0 c.events.queue1
    → mvvm_init_virtio_net c tap_ifname net
      ≡ outcome_of c net (interface_name c tap_ifname) (net_device_of c)
mvvm_init_virtio_net-outcome c tap_ifname net d =
    comes c.events c.open_fds tap_ifname net c.malloc_ctx c.open_tun c.tunsetiff
      (c.tunsetiff (take 15 tap_ifname)) c.malloc_net c.pthread_create (net_fds_of-failed c d) refl
