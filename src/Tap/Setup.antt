-- ===== src/Tap/Setup.antt =====
-- `mvvm_init_virtio_net` and `mvvm_destroy_virtio_net` (netdev.c): what the process holds when they
-- return.
pub mod Branches
use mvvmm.Base.{
  ap, sym, ◌∙◌, inl, inr, Bool-cases, none-some, ℕ, ◌≡◌, refl, ◌&&◌, Bool, true, false, Option,
  none, some, List, [], ◌∷◌, if◌then◌else◌, take, Code, success, failure, Outcome, done, crash,
}
use mvvmm.Virtio.Device.{Device}
use mvvmm.Virtio.Events.{
  InitCalls, Ending, ended, faulted, running, join, init_events, no_fds, virtio_net_init,
}
use mvvmm.Virtio.Events.Leaves.{all_taken, Differ, with_irq, init_events-open_at_end}
use mvvmm.Tap.{Readiness, failed, got, timed_read}

-- What the set-up allocates or opens.
pub data Resource : Type 0 where
  context descriptor ether_device virtio thread : Resource

-- The results of the calls: whether each of them succeeds, TUNSETIFF with the name in `ifr` then, and
-- those of virtio_net_init, before which the process has `open_fds` open.
pub record Calls : Type 0 where
  pub malloc_ctx : Bool
  pub open_tun : Bool
  pub tunsetiff : List ℕ → Option (List ℕ)
  pub malloc_net : Bool
  pub events : InitCalls
  pub open_fds : List ℕ
  pub pthread_create : Bool

-- `strncpy` into a name of IFNAMSIZ = 16 bytes, the last of which is cleared.
unfoldable pub if_name : List ℕ → List ℕ
if_name name = take 15 name

abbrev pub mac_addr : List ℕ
mac_addr = 0x52 ∷ 0x54 ∷ 0x00 ∷ 0x12 ∷ 0x34 ∷ 0x56 ∷ []

-- The label `fail`: `net`, the descriptor if it is not negative, and the context are given back.
unfoldable pub fail_label : List Resource → List Resource
fail_label [] = []
fail_label (virtio ∷ held) = virtio ∷ fail_label held
fail_label (thread ∷ held) = thread ∷ fail_label held
fail_label (_ ∷ held) = fail_label held

-- What `self->net` is assigned.
unfoldable pub net_device_of : Calls → Option Device
net_device_of c = (virtio_net_init c.events c.open_fds mac_addr).0

-- The descriptors behind virtio_net_init: those of the device are among them, and behind a failure what it has
-- left open.
unfoldable pub net_fds_of : Calls → List ℕ
net_fds_of c = ((virtio_net_init c.events c.open_fds mac_addr).1).open_fds

-- The set-up: the result, `self->net`, the name of the interface in the context, what is held, and the
-- descriptors that are open but that of the interface.
pub record Made : Type 0 where
  pub ret : Code
  pub net : Option Device
  pub ifname : List ℕ
  pub held : List Resource
  pub open_fds : List ℕ

abbrev pub made : Code → Option Device → List ℕ → List Resource → List ℕ → Made
made ret net ifname held open_fds = record {
  ret = ret;
  net = net;
  ifname = ifname;
  held = held;
  open_fds = open_fds;
}

-- From `virtio_net_init` on.
unfoldable pub start_net : Calls → List ℕ → Made
start_net c ifname = elim (net_device_of c) [
  | none ↦
      made failure none [] (fail_label (context ∷ descriptor ∷ ether_device ∷ [])) (net_fds_of c)
  | some dev ↦
      if c.pthread_create
      then made success (some dev) ifname
          (context ∷ descriptor ∷ ether_device ∷ virtio ∷ thread ∷ []) (net_fds_of c)
      else made failure (some dev) []
          (fail_label (context ∷ descriptor ∷ ether_device ∷ virtio ∷ [])) (net_fds_of c)
]

unfoldable pub mvvm_init_virtio_net : Calls → List ℕ → Option Device → Made
unfolding start_net
mvvm_init_virtio_net c tap_ifname net =
    if c.malloc_ctx
    then if c.open_tun
      then elim (c.tunsetiff (if_name tap_ifname)) [
        | none ↦ made failure net [] (fail_label (context ∷ descriptor ∷ [])) c.open_fds
        | some name ↦
            if c.malloc_net
            then start_net c (if_name name)
            else made failure net [] (fail_label (context ∷ descriptor ∷ [])) c.open_fds
      ]
      else made failure net [] (fail_label (context ∷ [])) c.open_fds
    else made failure net [] [] c.open_fds

-- The thread has ended, and the context, the `struct ether_device` and the device go; the descriptor
-- stays open.
unfoldable pub released : List Resource → List Resource
released [] = []
released (descriptor ∷ held) = descriptor ∷ released held
released (_ ∷ held) = released held

-- The thread that brings packets, once `quit` is set: what the interface gives it from then on, and
-- whether the device uses the memory of the guest for the packet, which is unmapped. `quit` is looked at only
-- where nothing has been read.
unfoldable pub rx_ending : List (Readiness × Bool) → Ending
unfolding timed_read
rx_ending [] = running
rx_ending ((ready, touches) ∷ rounds) =
    let again = rx_ending rounds in
    elim (timed_read ready) [
      | failed e ↦ ended
      | got [] ↦ ended
      | got (b ∷ bytes) ↦ if touches then faulted else again
    ]

-- What the process holds then; of NULL the context is read through it. The thread that brings packets is
-- waited for, then the context is gone, and the thread of the ioeventfds is waited for.
unfoldable pub mvvm_destroy_virtio_net :
    List (Readiness × Bool) → Ending → Option Device → List Resource → Outcome (List Resource)
unfolding rx_ending join
mvvm_destroy_virtio_net packets poller none held = crash
mvvm_destroy_virtio_net packets poller (some dev) held =
    join (rx_ending packets) (join poller (done (released held)))
