-- ===== src/Virtio/Mmio/Invariant.antt =====
-- Every access keeps the device valid.
use mvvmm.Base.{
  ℕ, zero, suc, ◌-◌, ◌^◌, ◌<◌, ◌≡◌, ◌&&◌, Option, none, some, ltb, leb, ◌==◌, if◌then◌else◌, sub32,
  bit_and, Outcome, done, ◌>>=◌, Ensures, Ensures-bind, Ensures-if, Code, success, failure, arith,
  Bool-cases, inl, inr,
}
use mvvmm.Base.Bits.{bit_and-le}
use mvvmm.Virtio.Device.{QueueState, max_queue, Machine}
use mvvmm.Virtio.Chain.{get_desc_rw_size}
use mvvmm.Virtio.Memory.{read16}
use mvvmm.Virtio.Queue.{
  Recv, avail_entry, queue_at, advance_avail, serve_entry, notify_loop, queue_notify,
}
use mvvmm.Virtio.Config.{virtio_config_write}
use mvvmm.Virtio.Mmio.{on_selected, with_device, write_register, virtio_mmio_write}
use mvvmm.Virtio.Mmio.Registers.{
  Register, register_of, device_features_sel, queue_sel, queue_num, queue_ready, notify,
  interrupt_ack, status, queue_desc_low, queue_desc_high, queue_avail_low, queue_avail_high,
  queue_used_low, queue_used_high,
}
use mvvmm.Virtio.Mmio.Valid.{IsValidQueue, IsValid}
use mvvmm.Virtio.Mmio.Fields.{
  on_selected-IsValid, IsValidQueue-low, IsValidQueue-high, IsValidQueue-ready, IsValidQueue-num,
  status-IsValid, advance_avail-IsValid, config_write-IsValid,
}

-- The value of `r`, if there is one, leaves a valid device.
abbrev pub KeepsValid : {B : Type 0} → Outcome (Machine B) → Type 0
KeepsValid r = Ensures (λ s. IsValid s.dev) r

-- What a handler of requests must promise: a valid device stays valid.
abbrev pub ServesValid : {B : Type 0} → Recv B → Type 0
ServesValid {B} recv =
    (s : Machine B) (i d r w : ℕ)
    → IsValid s.dev
    → Ensures (λ (p : Code × Machine B). IsValid p.1.dev) (recv s i d r w)

module _ {B : Type 0} (chain_fuel : ℕ) (recv : Recv B) (serves : ServesValid recv) where
  serve_entry-IsValid :
      (i : ℕ) (s : Machine B) (q : QueueState)
      → IsValid s.dev
      → Ensures (λ (p : Code × Machine B). IsValid p.1.dev) (serve_entry chain_fuel recv i s q)
  unfolding serve_entry
  serve_entry-IsValid i s q v =
      Ensures-bind _ (avail_entry s.mem q) _
        λ d _. Ensures-bind _ (get_desc_rw_size chain_fuel s.mem q d) _ (λ sizes _. served d sizes)
    where
      served :
          (d : ℕ) (sizes : Option (ℕ × ℕ))
          → Ensures
              (λ (p : Code × Machine B). IsValid p.1.dev)
              (elim sizes [ none ↦ done (success, s) | some (r, w) ↦ recv s i d r w ])
      served d none = v
      served d (some (r, w)) = serves s i d r w v

  go_on :
      (i : ℕ) (loop : Machine B → Outcome (Machine B)) (code : Code) (s' : Machine B)
      → ((s'' : Machine B) → IsValid s''.dev → KeepsValid (loop s''))
      → IsValid s'.dev
      → KeepsValid
          (elim code [ failure ↦ done s' | success ↦ advance_avail s' i >>= λ s''. loop s'' ])
  go_on i loop failure s' keeps v = v
  go_on i loop success s' keeps v =
      Ensures-bind _ (advance_avail s' i) _ λ s'' e. keeps s'' (advance_avail-IsValid s' s'' i v e)

  notify_loop-IsValid :
      (i fuel avail_idx : ℕ) (s : Machine B)
      → IsValid s.dev
      → KeepsValid (notify_loop chain_fuel recv i fuel avail_idx s)
  unfolding notify_loop
  notify_loop-IsValid i zero avail_idx s v = tt
  notify_loop-IsValid i (suc fuel) avail_idx s v = Ensures-bind _ (queue_at s.dev i) _ λ q _.
      Ensures-if _ (q.last_avail_idx == avail_idx) (done s) _ v (
        Ensures-bind _ (serve_entry chain_fuel recv i s q) _ λ (code, s') e.
          go_on i (notify_loop chain_fuel recv i fuel avail_idx) code s'
            (λ s'' w. notify_loop-IsValid i fuel avail_idx s'' w)
            (rw e at (serve_entry-IsValid i s q v)))

  queue_notify-IsValid :
      (i fuel : ℕ) (s : Machine B)
      → IsValid s.dev
      → KeepsValid (queue_notify chain_fuel recv i fuel s)
  unfolding queue_notify
  queue_notify-IsValid i fuel s v = Ensures-bind _ (queue_at s.dev i) _ λ q _.
      Ensures-if _ q.manual_recv (done s) _ v
        (Ensures-bind _ (read16 s.mem _) _ λ avail_idx _. notify_loop-IsValid i fuel avail_idx s v)

  with_selected-IsValid :
      (f : QueueState → QueueState) (s : Machine B)
      → IsValid s.dev
      → ((q : QueueState) → IsValidQueue q → IsValidQueue (f q))
      → KeepsValid (with_device s (on_selected f s.dev))
  unfolding with_device
  with_selected-IsValid f s v keep = let (_, e, v') = on_selected-IsValid f s.dev v keep in rw e v'

  queue_num-IsValid :
      (s : Machine B) (val : ℕ)
      → val < 2 ^ 32
      → IsValid s.dev
      → KeepsValid (
          if (bit_and val (sub32 val 1) == 0) && ltb 0 val
          then with_device s (on_selected (λ q. record q { num = val }) s.dev)
          else done s)
  queue_num-IsValid s val h v = elim (Bool-cases ((bit_and val (sub32 val 1) == 0) && ltb 0 val)) [
    | inl pass ↦
        let good : (bit_and val (sub32 val 1) ≡ 0) × (0 < val) = ground arith in
        rw pass (with_selected-IsValid _ s v λ q w. IsValidQueue-num q val h good.1 good.0 w)
    | inr fail ↦ rw fail v
  ]

  write_register-IsValid :
      (fuel : ℕ) (s : Machine B) (r : Register) (val : ℕ)
      → val < 2 ^ 32
      → IsValid s.dev
      → KeepsValid (write_register fuel chain_fuel recv s r val)
  unfolding write_register
  write_register-IsValid fuel s device_features_sel val h v = ground arith
  write_register-IsValid fuel s queue_sel val h v = ground arith
  write_register-IsValid fuel s queue_num val h v = queue_num-IsValid s val h v
  write_register-IsValid fuel s queue_desc_low val h v =
      with_selected-IsValid _ s v λ q w. (IsValidQueue-low q val h w).0
  write_register-IsValid fuel s queue_avail_low val h v =
      with_selected-IsValid _ s v λ q w. (IsValidQueue-low q val h w).1
  write_register-IsValid fuel s queue_used_low val h v =
      with_selected-IsValid _ s v λ q w. (IsValidQueue-low q val h w).2
  write_register-IsValid fuel s queue_desc_high val h v =
      with_selected-IsValid _ s v λ q w. (IsValidQueue-high q val h w).0
  write_register-IsValid fuel s queue_avail_high val h v =
      with_selected-IsValid _ s v λ q w. (IsValidQueue-high q val h w).1
  write_register-IsValid fuel s queue_used_high val h v =
      with_selected-IsValid _ s v λ q w. (IsValidQueue-high q val h w).2
  write_register-IsValid fuel s queue_ready val h v =
      with_selected-IsValid _ s v λ q w. IsValidQueue-ready q val w
  write_register-IsValid fuel s status val h v = status-IsValid s val h v
  write_register-IsValid fuel s notify val h v =
      Ensures-if _ (ltb val max_queue) _ (done s) (queue_notify-IsValid val fuel s v) v
  write_register-IsValid fuel s interrupt_ack val h v =
      ground (arith, bit_and-le s.dev.int_status (2 ^ 32 - 1 - val))
  write_register-IsValid fuel s _ val h v = v

  -- Every write of the guest, whatever its offset, 32-bit value and size, leaves a valid device
  -- valid where it returns, if the requests that it sets off do.
  pub virtio_mmio_write-IsValid :
      (fuel : ℕ) (s : Machine B) (offset val size : ℕ)
      → val < 2 ^ 32
      → IsValid s.dev
      → KeepsValid (virtio_mmio_write fuel chain_fuel recv s offset val size)
  unfolding virtio_mmio_write
  virtio_mmio_write-IsValid fuel s offset val size h v =
      Ensures-if _ (leb 0x100 offset) _ _
        (Ensures-bind _ (virtio_config_write s.dev (offset - 0x100) val size) _
          λ d e. rw e at (config_write-IsValid s.dev (offset - 0x100) val size v))
        (Ensures-if _ (size == 4) _ (done s)
          (write_register-IsValid fuel s (register_of offset) val h v) v)
