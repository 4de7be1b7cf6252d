-- ===== src/Vmm/Run.antt =====
-- The exits of the virtual CPU (mvvm.c): the loop of `mvvm_run` over the devices. What KVM reports
-- at an exit is an input, and the loop is over the list of the exits.
pub mod Validity
pub mod Rounds
pub mod Power
pub mod Sigterm
use mvvmm.Base.{
  ℕ, ◌-◌, ◌*◌, ◌/◌, ◌^◌, Bool, Option, none, some, List, [], ◌∷◌, ◌&&◌, ltb, leb, ◌==◌,
  if◌then◌else◌, u32, sub64, Outcome, done, crash, ◌>>=◌,
}
use mvvmm.Guest.{GuestMem}
use mvvmm.Virtio.Device.{Device, IrqEvent, Machine}
use mvvmm.Virtio.Queue.{Recv}
use mvvmm.Virtio.Mmio.{virtio_mmio_read, virtio_mmio_write}
use mvvmm.Serial.{Serial, handle_serial}
use mvvmm.Vmm.{handle_power}

abbrev pub virtio_blk_mmio_addr : ℕ
virtio_blk_mmio_addr = 1024 * 1024 * 1024 * 1024

abbrev pub virtio_net_mmio_addr : ℕ
virtio_net_mmio_addr = 1025 * 1024 * 1024 * 1024

-- `struct mvvm`: `none` is a device that is NULL. `disk` and `tap` are the states of what serves
-- the two devices.
pub record Vm (B C : Type 0) : Type 0 where
  pub mem : GuestMem
  pub serial : Serial
  pub power_cmd : ℕ
  pub blk : Option Device
  pub net : Option Device
  pub irqs : List IrqEvent
  pub disk : B
  pub tap : C

-- `run->exit_reason` with what comes with it: the port, the direction and the byte of an I/O
-- access; address, direction, data and length of an access to a place without memory.
pub data Exit : Type 0 where
  io : ℕ → Bool → ℕ → Exit
  mmio : ℕ → Bool → ℕ → ℕ → Exit
  shutdown unhandled : Exit

-- How a round of the loop ends: with the data for the guest, or with the value to return.
pub data Next (B C : Type 0) : Type 0 where
  go_on : Vm B C → ℕ → Next B C
  stop : Vm B C → ℕ → Next B C

module _ (fuel chain_fuel : ℕ) where
  -- An access to the registers of one device: the machine and the data for the guest.
  unfoldable pub device_exit :
      {D : Type 0} → Recv D → Machine D → ℕ → Bool → ℕ → ℕ → Outcome (Machine D × ℕ)
  device_exit recv s offset is_write value len =
      if ltb 4096 offset
      then done (s, value)
      else if is_write
      then (do
        s' ← virtio_mmio_write fuel chain_fuel recv s offset (u32 value) len
        done (s', value))
      else (do value' ← virtio_mmio_read s.dev offset len; done (s, value'))

module _ {B C : Type 0} where
  abbrev pub blk_machine : Vm B C → Device → Machine B
  blk_machine vm dev = record { dev = dev; mem = vm.mem; irqs = vm.irqs; backend = vm.disk }

  abbrev pub net_machine : Vm B C → Device → Machine C
  net_machine vm dev = record { dev = dev; mem = vm.mem; irqs = vm.irqs; backend = vm.tap }

  abbrev pub with_blk : Vm B C → Machine B → Vm B C
  with_blk vm s = record vm { blk = some s.dev; mem = s.mem; irqs = s.irqs; disk = s.backend }

  abbrev pub with_net : Vm B C → Machine C → Vm B C
  with_net vm s = record vm { net = some s.dev; mem = s.mem; irqs = s.irqs; tap = s.backend }

  unfoldable pub power_exit : Vm B C → ℕ → Bool → ℕ → Next B C
  power_exit vm port out value =
      if port == 0x300
      then (let (cmd, value', ret) = handle_power vm.power_cmd out value in
          if ret == 0
          then go_on (record vm { power_cmd = cmd }) value'
          else stop (record vm { power_cmd = cmd }) ret)
      else go_on vm value

  unfoldable pub io_exit : Vm B C → ℕ → Bool → ℕ → Next B C
  unfolding power_exit
  io_exit vm port out value =
      if leb 0x3f8 port && leb port 0x3ff
      then (let (serial, value') = handle_serial vm.serial (port - 0x3f8) out value in
          power_exit (record vm { serial = serial }) port out value')
      else power_exit vm port out value

  module _ (fuel chain_fuel : ℕ) where
    module _ (blk_recv : Recv B) (net_recv : Recv C) where
      unfoldable pub blk_exit : Vm B C → ℕ → Bool → ℕ → ℕ → Outcome (Next B C)
      unfolding device_exit
      blk_exit vm offset is_write value len = elim vm.blk [
        | none ↦ if ltb 4096 offset then done (go_on vm value) else crash
        | some dev ↦ do
          (s, value') ←
              device_exit fuel chain_fuel blk_recv (blk_machine vm dev) offset is_write value len
          done (go_on (with_blk vm s) value')
      ]

      unfoldable pub net_exit : Vm B C → ℕ → Bool → ℕ → ℕ → Outcome (Next B C)
      unfolding device_exit
      net_exit vm offset is_write value len = elim vm.net [
        | none ↦ if ltb 4096 offset then done (go_on vm value) else crash
        | some dev ↦ do
          (s, value') ←
              device_exit fuel chain_fuel net_recv (net_machine vm dev) offset is_write value len
          done (go_on (with_net vm s) value')
      ]

      -- One round of the loop behind `KVM_RUN`.
      unfoldable pub run_exit : Vm B C → Exit → Outcome (Next B C)
      unfolding io_exit blk_exit net_exit
      run_exit vm (io port out value) = done (io_exit vm port out value)
      run_exit vm (mmio addr is_write value len) =
          if addr / 2 ^ 30 == 1024
          then blk_exit vm (u32 (sub64 addr virtio_blk_mmio_addr)) is_write value len
          else if addr / 2 ^ 30 == 1025
          then net_exit vm (u32 (sub64 addr virtio_net_mmio_addr)) is_write value len
          else done (go_on vm value)
      run_exit vm shutdown = done (stop vm 1)
      run_exit vm unhandled = done (stop vm 1)

      -- The loop: the machine and, once it has stopped, the value that `mvvm_run` returns.
      unfoldable pub mvvm_run : List Exit → Vm B C → Outcome (Vm B C × Option ℕ)
      unfolding run_exit
      mvvm_run [] vm = done (vm, none)
      mvvm_run (e ∷ es) vm =
          run_exit vm e
          >>= elim [ go_on vm' value ↦ mvvm_run es vm' | stop vm' ret ↦ done (vm', some ret) ]
