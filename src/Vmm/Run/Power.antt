-- ===== src/Vmm/Run/Power.antt =====
-- What the exits do to the command of the power port: only a read of the port takes it.
use mvvmm.Base.{
  ℕ, ◌-◌, ◌/◌, ◌^◌, ◌≡◌, refl, Bool, true, false, ◌&&◌, not, Option, none, some, ltb, leb, ◌==◌,
  if◌then◌else◌, u32, sub64, done, crash, ◌>>=◌, Ensures, Ensures-bind, Ensures-if, arith,
}
use mvvmm.Virtio.Device.{Device}
use mvvmm.Virtio.Queue.{Recv}
use mvvmm.Serial.{handle_serial}
use mvvmm.Vmm.{handle_power}
use mvvmm.Vmm.Run.{
  Vm, Exit, io, mmio, shutdown, unhandled, Next, go_on, stop, blk_machine, net_machine, with_blk,
  with_net, io_exit, power_exit, device_exit, blk_exit, net_exit, run_exit, virtio_blk_mmio_addr,
  virtio_net_mmio_addr,
}

-- Whether the exit is a read of the power port.
abbrev pub reads_power : Exit → Bool
reads_power (io port out value) = (port == 0x300) && not out
reads_power (mmio addr is_write value len) = false
reads_power shutdown = false
reads_power unhandled = false

module _ {B C : Type 0} where
  -- The command of the machine is still `cmd`.
  abbrev pub Keeps : ℕ → Next B C → Type 0
  Keeps cmd (go_on vm value) = vm.power_cmd ≡ cmd
  Keeps cmd (stop vm ret) = vm.power_cmd ≡ cmd

  power_exit-Keeps :
      (vm : Vm B C) (port : ℕ) (out : Bool) (value : ℕ)
      → ((port == 0x300) && not out) ≡ false
      → Keeps vm.power_cmd (power_exit vm port out value)
  unfolding power_exit handle_power
  power_exit-Keeps vm port true value e = ground arith
  power_exit-Keeps vm port false value e = ground arith

  io_exit-Keeps :
      (vm : Vm B C) (port : ℕ) (out : Bool) (value : ℕ)
      → ((port == 0x300) && not out) ≡ false
      → Keeps vm.power_cmd (io_exit vm port out value)
  unfolding io_exit
  io_exit-Keeps vm port out value e =
      either (leb 0x3f8 port && leb port 0x3ff) _ _
        (power_exit-Keeps
          (record vm { serial = (handle_serial vm.serial (port - 0x3f8) out value).0 }) port out
          (handle_serial vm.serial (port - 0x3f8) out value).1 e)
        (power_exit-Keeps vm port out value e)
    where
      either :
          (b : Bool) (m n : Next B C)
          → Keeps vm.power_cmd m
          → Keeps vm.power_cmd n
          → Keeps vm.power_cmd (if b then m else n)
      either true m n h k = h
      either false m n h k = k

  module _ (fuel chain_fuel : ℕ) (blk_recv : Recv B) (net_recv : Recv C) where
    blk_exit-Keeps :
        (vm : Vm B C) (offset : ℕ) (w : Bool) (value len : ℕ)
        → Ensures
            (Keeps vm.power_cmd)
            (blk_exit fuel chain_fuel blk_recv net_recv vm offset w value len)
    unfolding blk_exit
    blk_exit-Keeps vm offset w value len = served vm.blk
      where
        served :
            (device : Option Device)
            → Ensures (Keeps vm.power_cmd) (elim device [
              | none ↦ if ltb 4096 offset then done (go_on vm value) else crash
              | some dev ↦ do
                (s, value') ←
                    device_exit fuel chain_fuel blk_recv (blk_machine vm dev) offset w value len
                done (go_on (with_blk vm s) value')
            ])
        served none = Ensures-if _ (ltb 4096 offset) (done (go_on vm value)) crash refl tt
        served (some dev) =
            Ensures-bind _
              (device_exit fuel chain_fuel blk_recv (blk_machine vm dev) offset w value len) _
              λ p _. refl

    net_exit-Keeps :
        (vm : Vm B C) (offset : ℕ) (w : Bool) (value len : ℕ)
        → Ensures
            (Keeps vm.power_cmd)
            (net_exit fuel chain_fuel blk_recv net_recv vm offset w value len)
    unfolding net_exit
    net_exit-Keeps vm offset w value len = served vm.net
      where
        served :
            (device : Option Device)
            → Ensures (Keeps vm.power_cmd) (elim device [
              | none ↦ if ltb 4096 offset then done (go_on vm value) else crash
              | some dev ↦ do
                (s, value') ←
                    device_exit fuel chain_fuel net_recv (net_machine vm dev) offset w value len
                done (go_on (with_net vm s) value')
            ])
        served none = Ensures-if _ (ltb 4096 offset) (done (go_on vm value)) crash refl tt
        served (some dev) =
            Ensures-bind _
              (device_exit fuel chain_fuel net_recv (net_machine vm dev) offset w value len) _
              λ p _. refl

    pub run_exit-Keeps :
        (vm : Vm B C) (e : Exit)
        → reads_power e ≡ false
        → Ensures (Keeps vm.power_cmd) (run_exit fuel chain_fuel blk_recv net_recv vm e)
    unfolding run_exit
    run_exit-Keeps vm (io port out value) h = io_exit-Keeps vm port out value h
    run_exit-Keeps vm (mmio addr w value len) h =
        Ensures-if _ (addr / 2 ^ 30 == 1024) _ _
          (blk_exit-Keeps vm (u32 (sub64 addr virtio_blk_mmio_addr)) w value len)
          (Ensures-if _ (addr / 2 ^ 30 == 1025) _ _
            (net_exit-Keeps vm (u32 (sub64 addr virtio_net_mmio_addr)) w value len) refl)
    run_exit-Keeps vm shutdown h = refl
    run_exit-Keeps vm unhandled h = refl
