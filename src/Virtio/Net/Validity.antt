-- ===== src/Virtio/Net/Validity.antt =====
-- The network device's handler against the validity of the device.
use mvvmm.Base.{
  ℕ, List, sub32, replicate, done, ◌>>=◌, Ensures, Ensures-bind, Code, success, failure,
}
use mvvmm.Guest.{GuestMem}
use mvvmm.Virtio.Device.{Machine, QueueState}
use mvvmm.Virtio.Chain.{memcpy_from_queue}
use mvvmm.Virtio.Queue.{queue_at, virtio_consume_desc}
use mvvmm.Virtio.Mmio.Valid.{IsValid}
use mvvmm.Virtio.Mmio.Invariant.{ServesValid}
use mvvmm.Virtio.Block.{zeroed}
use mvvmm.Virtio.Block.Validity.{virtio_consume_desc-IsValid}
use mvvmm.Virtio.Net.{header_size, virtio_net_recv_request}

-- Whatever the packet, the handler of the network device leaves a valid device valid, where it
-- returns.
pub virtio_net_recv_request-ServesValid :
    {B : Type 0} (write_packet : B → List ℕ → ℕ → B)
    → ServesValid (virtio_net_recv_request write_packet)
unfolding virtio_net_recv_request
virtio_net_recv_request-ServesValid {B} write_packet s i d r w v =
    Ensures-bind _ (queue_at s.dev i) _ λ q _.
      Ensures-bind _ (memcpy_from_queue s.mem (replicate header_size 0) q d 0 header_size) _
        λ c _. served q c
  where
    served :
        (q : QueueState) (c : Code × GuestMem × List ℕ)
        → Ensures
            (λ (p : Code × Machine B). IsValid p.1.dev)
            (elim c.0 [
              | failure ↦ done (success, s)
              | success ↦ do
                let len = sub32 r header_size
                buf ← zeroed len
                (_, _, packet) ← memcpy_from_queue s.mem buf q d header_size len
                s' ←
                    virtio_consume_desc
                      (record s { backend = write_packet s.backend packet len })
                      i
                      d
                      0
                done (success, s')
            ])
    served q (failure, m, h) = v
    served q (success, m, h) = Ensures-bind _ (zeroed (sub32 r header_size)) _ λ buf _.
        Ensures-bind _ (memcpy_from_queue s.mem buf q d header_size (sub32 r header_size)) _ λ c _.
          let sent = record s { backend = write_packet s.backend c.2 (sub32 r header_size) } in
          Ensures-bind _ (virtio_consume_desc sent i d 0) _
            λ s' e. rw e at (virtio_consume_desc-IsValid sent i d 0 v)
