-- ===== src/Vmm/Run/Validity.antt =====
-- The devices stay valid over the exits of the guest.
use mvvmm.Base.{
  ℕ, ◌-◌, ◌/◌, ◌^◌, Bool, true, false, Option, none, some, List, [], ◌∷◌, ◌&&◌, ltb, leb, ◌==◌,
  if◌then◌else◌, u32, sub64, Outcome, done, crash, ◌>>=◌, Ensures, Ensures-bind, Ensures-if, arith,
}
use mvvmm.Virtio.Device.{Device, Machine}
use mvvmm.Virtio.Queue.{Recv}
use mvvmm.Virtio.Mmio.{virtio_mmio_read, virtio_mmio_write}
use mvvmm.Virtio.Mmio.Valid.{IsValid}
use mvvmm.Virtio.Mmio.Invariant.{ServesValid, virtio_mmio_write-IsValid}
use mvvmm.Serial.{handle_serial}
use mvvmm.Vmm.Run.{
  Vm, Exit, io, mmio, shutdown, unhandled, Next, go_on, stop, blk_machine, net_machine, with_blk,
  with_net, io_exit, power_exit, device_exit, blk_exit, net_exit, run_exit, mvvm_run,
  virtio_blk_mmio_addr, virtio_net_mmio_addr,
}

-- A device that there is is valid.
abbrev pub Holds : Option Device → Type 0
Holds none = Unit {0}
Holds (some dev) = IsValid dev

pub record IsValidVm {B C : Type 0} (vm : Vm B C) : Type 0 where
  pub blk : Holds vm.blk
  pub net : Holds vm.net

abbrev pub NextValid : {B C : Type 0} → Next B C → Type 0
NextValid (go_on vm value) = IsValidVm vm
NextValid (stop vm ret) = IsValidVm vm

module _ (fuel chain_fuel : ℕ) where
  device_exit-IsValid :
      {D : Type 0} (recv : Recv D) (s : Machine D) (offset : ℕ) (w : Bool) (value len : ℕ)
      → ServesValid recv
      → IsValid s.dev
      → Ensures
          (λ (p : Machine D × ℕ). IsValid p.0.dev)
          (device_exit fuel chain_fuel recv s offset w value len)
  unfolding device_exit
  device_exit-IsValid recv s offset w value len serves v =
      Ensures-if _ (ltb 4096 offset) (done (s, value)) _ v (
        Ensures-if _ w _ _
          (Ensures-bind _ (virtio_mmio_write fuel chain_fuel recv s offset (u32 value) len) _
            λ s' e. rw e at (
              virtio_mmio_write-IsValid chain_fuel recv serves fuel s offset (u32 value) len
                (omega arith) v))
          (Ensures-bind _ (virtio_mmio_read s.dev offset len) _ λ value' _. v))

module _ {B C : Type 0} where
  if-NextValid :
      (b : Bool) (m n : Next B C) → NextValid m → NextValid n → NextValid (if b then m else n)
  if-NextValid true m n h k = h
  if-NextValid false m n h k = k

  power_exit-IsValidVm :
      (vm : Vm B C) (port : ℕ) (out : Bool) (value : ℕ)
      → IsValidVm vm
      → NextValid (power_exit vm port out value)
  unfolding power_exit
  power_exit-IsValidVm vm port out value v = ground arith

  io_exit-IsValidVm :
      (vm : Vm B C) (port : ℕ) (out : Bool) (value : ℕ)
      → IsValidVm vm
      → NextValid (io_exit vm port out value)
  unfolding io_exit
  io_exit-IsValidVm vm port out value v =
      let (serial, value') = handle_serial vm.serial (port - 0x3f8) out value in
      if-NextValid (leb 0x3f8 port && leb port 0x3ff) _ _
        (power_exit-IsValidVm (record vm { serial = serial }) port out value'
          (record { blk = v.blk; net = v.net }))
        (power_exit-IsValidVm vm port out value v)

  module _ (fuel chain_fuel : ℕ) where
    module _ (blk_recv : Recv B) (net_recv : Recv C) (blk_serves : ServesValid blk_recv)
        (net_serves : ServesValid net_recv) where
      blk_exit-IsValidVm :
          (vm : Vm B C) (offset : ℕ) (w : Bool) (value len : ℕ)
          → IsValidVm vm
          → Ensures NextValid (blk_exit fuel chain_fuel blk_recv net_recv vm offset w value len)
      unfolding blk_exit
      blk_exit-IsValidVm vm offset w value len v = served vm.blk v.blk
        where
          served :
              (device : Option Device)
              → Holds device
              → Ensures NextValid (elim device [
                | none ↦ if ltb 4096 offset then done (go_on vm value) else crash
                | some dev ↦ do
                  (s, value') ←
                      device_exit fuel chain_fuel blk_recv (blk_machine vm dev) offset w value len
                  done (go_on (with_blk vm s) value')
              ])
          served none h = Ensures-if _ (ltb 4096 offset) (done (go_on vm value)) crash v tt
          served (some dev) h =
              Ensures-bind _
                (device_exit fuel chain_fuel blk_recv (blk_machine vm dev) offset w value len) _
                λ r same. record {
                  blk = rw same at (
                      device_exit-IsValid fuel chain_fuel blk_recv (blk_machine vm dev) offset w
                        value len blk_serves h);
                  net = v.net;
                }

      net_exit-IsValidVm :
          (vm : Vm B C) (offset : ℕ) (w : Bool) (value len : ℕ)
          → IsValidVm vm
          → Ensures NextValid (net_exit fuel chain_fuel blk_recv net_recv vm offset w value len)
      unfolding net_exit
      net_exit-IsValidVm vm offset w value len v = served vm.net v.net
        where
          served :
              (device : Option Device)
              → Holds device
              → Ensures NextValid (elim device [
                | none ↦ if ltb 4096 offset then done (go_on vm value) else crash
                | some dev ↦ do
                  (s, value') ←
                      device_exit fuel chain_fuel net_recv (net_machine vm dev) offset w value len
                  done (go_on (with_net vm s) value')
              ])
          served none h = Ensures-if _ (ltb 4096 offset) (done (go_on vm value)) crash v tt
          served (some dev) h =
              Ensures-bind _
                (device_exit fuel chain_fuel net_recv (net_machine vm dev) offset w value len) _
                λ r same. record {
                  net = rw same at (
                      device_exit-IsValid fuel chain_fuel net_recv (net_machine vm dev) offset w
                        value len net_serves h);
                  blk = v.blk;
                }

      -- From one exit to the next.
      run_exit-IsValidVm :
          (vm : Vm B C) (e : Exit)
          → IsValidVm vm
          → Ensures NextValid (run_exit fuel chain_fuel blk_recv net_recv vm e)
      unfolding run_exit
      run_exit-IsValidVm vm (io port out value) v = io_exit-IsValidVm vm port out value v
      run_exit-IsValidVm vm (mmio addr w value len) v =
          Ensures-if _ (addr / 2 ^ 30 == 1024) _ _
            (blk_exit-IsValidVm vm (u32 (sub64 addr virtio_blk_mmio_addr)) w value len v)
            (Ensures-if _ (addr / 2 ^ 30 == 1025) _ (done (go_on vm value))
              (net_exit-IsValidVm vm (u32 (sub64 addr virtio_net_mmio_addr)) w value len v) v)
      run_exit-IsValidVm vm shutdown v = v
      run_exit-IsValidVm vm unhandled v = v

      -- The devices of a valid machine are valid behind any list of exits of the guest, where the
      -- run of it comes to an end, if the handlers keep valid devices valid.
      pub mvvm_run-IsValidVm :
          (es : List Exit) (vm : Vm B C)
          → IsValidVm vm
          → Ensures
              (λ (r : Vm B C × Option ℕ). IsValidVm r.0)
              (mvvm_run fuel chain_fuel blk_recv net_recv es vm)
      unfolding mvvm_run
      mvvm_run-IsValidVm [] vm v = v
      mvvm_run-IsValidVm (e ∷ es) vm v =
          Ensures-bind _ (run_exit fuel chain_fuel blk_recv net_recv vm e) _ λ next same.
            onward next (rw same at (run_exit-IsValidVm vm e v)) (mvvm_run-IsValidVm es)
        where
          Returns : Outcome (Vm B C × Option ℕ) → Type 0
          Returns = Ensures (λ (r : Vm B C × Option ℕ). IsValidVm r.0)

          onward :
              (next : Next B C)
              → NextValid next
              → ((vm' : Vm B C)
                  → IsValidVm vm'
                  → Returns (mvvm_run fuel chain_fuel blk_recv net_recv es vm'))
              → Returns (elim next [
                | go_on vm' value ↦ mvvm_run fuel chain_fuel blk_recv net_recv es vm'
                | stop vm' ret ↦ done (vm', some ret)
              ])
          onward (go_on vm' value) w rest = rest vm' w
          onward (stop vm' ret) w rest = w
