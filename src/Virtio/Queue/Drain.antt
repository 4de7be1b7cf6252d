-- ===== src/Virtio/Queue/Drain.antt =====
-- `queue_notify` serves what the driver has made available, and ends.
use mvvmm.Base.{
  ℕ, zero, suc, ◌+◌, ◌-◌, ◌%◌, ◌^◌, ◌<◌, ◌≡◌, ◌≢◌, refl, ap, sym, ◌∙◌, false, ne→==, eq→==, u16,
  u64, done, done_inj, success, arith,
}
use native.Mathlib.Decide.{ℕ_discrete}
use mvvmm.Virtio.Memory.{read16}
use mvvmm.Virtio.Device.{QueueState, Device, get_queue, set_queue, Machine}
use mvvmm.Virtio.Queue.{Recv, queue_at, advance_avail, serve_entry, notify_loop, queue_notify}

-- Requests that wait between the device's index and the driver's, which both count modulo 2 ^ 16.
abbrev pub pending : QueueState → ℕ → ℕ
pending q avail_idx = (avail_idx + 2 ^ 16 - q.last_avail_idx) % 2 ^ 16

-- The queue with its requests up to `avail_idx` taken.
abbrev pub drained : QueueState → ℕ → QueueState
drained q avail_idx = record q { last_avail_idx = avail_idx }

queue_at-set_queue :
    (dev : Device) (i : ℕ) (q q' : QueueState)
    → queue_at dev i ≡ done q
    → queue_at (record dev { queue = set_queue dev.queue i q' }) i ≡ done q'
unfolding queue_at get_queue set_queue
queue_at-set_queue dev i q q' e = ground arith

queue_at-same :
    (dev dev' : Device) (i : ℕ) → dev'.queue ≡ dev.queue → queue_at dev' i ≡ queue_at dev i
unfolding queue_at
queue_at-same dev dev' i e = rw e refl

advance_avail-done :
    {B : Type 0} (s : Machine B) (i : ℕ) (q : QueueState)
    → queue_at s.dev i ≡ done q
    → (s' : Machine B) × (advance_avail s i ≡ done s')
      × (queue_at s'.dev i ≡ done (record q { last_avail_idx = u16 (q.last_avail_idx + 1) }))
unfolding advance_avail
advance_avail-done s i q e =
    let q' = record q { last_avail_idx = u16 (q.last_avail_idx + 1) } in
    (
      record s { dev = record s.dev { queue = set_queue s.dev.queue i q' } },
      rw e refl,
      queue_at-set_queue s.dev i q q' e,
    )

module _ {B : Type 0} (chain_fuel : ℕ) (recv : Recv B) (i avail_idx : ℕ)
    (I : Machine B → Type 0) where
  -- What the handler promises on the states of `I`: a request that waits is served, without
  -- touching the queues, and the state behind it is in `I` again.
  pub record Serves : Type 0 where
    pub serve :
        (s : Machine B) (q : QueueState)
        → I s
        → queue_at s.dev i ≡ done q
        → q.last_avail_idx ≢ avail_idx
        → (s' s'' : Machine B) × (serve_entry chain_fuel recv i s q ≡ done (success, s'))
          × (s'.dev.queue ≡ s.dev.queue)
          × (advance_avail s' i ≡ done s'')
          × I s''

  notify_loop-drained :
      (fuel : ℕ) (s : Machine B) (q : QueueState)
      → Serves
      → I s
      → queue_at s.dev i ≡ done q
      → q.last_avail_idx < 2 ^ 16
      → avail_idx < 2 ^ 16
      → pending q avail_idx < fuel
      → (s' : Machine B) × (notify_loop chain_fuel recv i fuel avail_idx s ≡ done s')
        × I s'
        × (queue_at s'.dev i ≡ done (drained q avail_idx))
  unfolding notify_loop
  notify_loop-drained zero s q sv is e hq ha rounds = absurd (omega arith)
  notify_loop-drained (suc fuel) s q sv is e hq ha rounds =
      elim (ℕ_discrete q.last_avail_idx avail_idx) [
        | yes same ↦ (s, rw (e, eq→== same), is, e ∙ ap (λ a. done (drained q a)) same)
        | no apart ↦
            let (s1, s2, served, kept, moved, is2) = sv.serve s q is e apart in
            let (s3, moved', e3) =
              advance_avail-done s1 i q (queue_at-same s.dev s1.dev i kept ∙ e) in
            let same = done_inj (sym moved ∙ moved') in
            let q2 = record q { last_avail_idx = u16 (q.last_avail_idx + 1) } in
            let e2 : queue_at s2.dev i ≡ done q2 = rw same e3 in
            let (s', rest, is', at_end) =
              notify_loop-drained fuel s2 q2 sv is2 e2 (omega arith) ha (omega arith) in
            (s', rw (e, ne→== apart, served, moved) rest, is', at_end)
      ]

  -- On a queue without `manual_recv`, where the handler serves every request that waits without
  -- touching the queues and stays within the states of `I` (`Serves`), and the driver's index is
  -- readable, `queue_notify` returns within one round of fuel for each request that waits and one
  -- more, in a state of `I`, and the device's 16-bit index has caught up with the driver's.
  pub queue_notify-drained :
      (fuel : ℕ) (s : Machine B) (q : QueueState)
      → Serves
      → I s
      → queue_at s.dev i ≡ done q
      → q.manual_recv ≡ false
      → read16 s.mem (u64 (q.avail_addr + 2)) ≡ done avail_idx
      → q.last_avail_idx < 2 ^ 16
      → avail_idx < 2 ^ 16
      → pending q avail_idx < fuel
      → (s' : Machine B) × (queue_notify chain_fuel recv i fuel s ≡ done s')
        × I s'
        × (queue_at s'.dev i ≡ done (drained q avail_idx))
  unfolding queue_notify
  queue_notify-drained fuel s q sv is e auto read hq ha rounds =
      let (s', loop, is', at_end) = notify_loop-drained fuel s q sv is e hq ha rounds in
      (s', rw (e, auto, read) loop, is', at_end)
