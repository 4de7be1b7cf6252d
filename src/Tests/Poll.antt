-- ===== src/Tests/Poll.antt =====
-- Notifications of both queues in one round, of queue 1 behind an interruption, and the end.
use mvvmm.Base.{◌≡◌, refl, true, false, some, List, [], ◌∷◌, arith}
use mvvmm.Virtio.Block.{virtio_block_recv_request}
use mvvmm.Virtio.Events.{Fds}
use mvvmm.Virtio.Events.Poll.{
  Counters, interrupted, answered, PollRound, virtio_ioeventfd_poll_thread,
}
use mvvmm.Virtio.Events.Owed.{readable, owed, kicked, queue_if}
use mvvmm.Virtio.Events.Served.{notify_all, machine_of, virtio_ioeventfd_poll_thread-serves}
use mvvmm.Tests.Fixture.{machine}
use mvvmm.Tests.Queue.{disk}

abbrev fds : Fds
fds = record {
  irqfd = some 7;
  ioeventfd0 = some 8;
  ioeventfd1 = some 9;
  ioeventfd_enabled = true;
  open_fds = 9 ∷ 8 ∷ 7 ∷ [];
}

abbrev zeros : Counters
zeros fd = 0

-- Queue 0 twice and queue 1 once, and queue 0 once more before the reads; an interruption with a
-- notification of queue 1; a round that answers, one without a notification, and the end.
abbrev rounds : List PollRound
rounds =
    record { enabled = true; kicks = 8 ∷ 9 ∷ 8 ∷ []; polled = answered; late = 8 ∷ [] }
    ∷ record { enabled = true; kicks = 9 ∷ []; polled = interrupted; late = [] }
    ∷ record { enabled = true; kicks = []; polled = answered; late = [] }
    ∷ record { enabled = true; kicks = []; polled = answered; late = [] }
    ∷ record { enabled = false; kicks = 8 ∷ []; polled = answered; late = [] }
    ∷ []

owed-rounds : owed 8 9 rounds false false ≡ 0 ∷ 1 ∷ 1 ∷ []
unfolding owed kicked queue_if
owed-rounds = refl

virtio_ioeventfd_poll_thread-serves_example :
    machine_of readable 2 3 (virtio_block_recv_request disk) (
      virtio_ioeventfd_poll_thread readable 2 3
        (virtio_block_recv_request disk)
        fds
        rounds
        zeros
        machine)
    ≡ notify_all readable 2 3 (virtio_block_recv_request disk) (owed 8 9 rounds false false) machine
virtio_ioeventfd_poll_thread-serves_example =
    virtio_ioeventfd_poll_thread-serves readable 2 3 (virtio_block_recv_request disk) fds 8 9 refl
      refl (λ e. ground arith) (λ c fds. refl) rounds zeros machine
