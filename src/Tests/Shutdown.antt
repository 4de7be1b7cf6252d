-- ===== src/Tests/Shutdown.antt =====
-- A shutdown of a guest that writes to port 0x80 in between.
use mvvmm.Base.{ℕ, ◌≡◌, refl, true, false, none, some, List, [], ◌∷◌, ◌++◌, done}
use mvvmm.Virtio.Queue.{Recv}
use mvvmm.Virtio.Block.{virtio_block_recv_request}
use mvvmm.Virtio.Net.{virtio_net_recv_request}
use mvvmm.Vmm.Run.{Exit, io, go_on, power_exit, io_exit, run_exit, mvvm_run}
use mvvmm.GuestModule.{ModuleState, port, my_irq_handler, power_work_func, mvvmm_poweroff}
use mvvmm.GuestModule.Shutdown.{signalled, mvvmm_shutdown-stops}
use mvvmm.Tests.Queue.{disk, count_bytes}
use mvvmm.Tests.Run.{vm}

abbrev idle : ModuleState
idle = record { pending_command = 0; scheduled = false }

abbrev between : List Exit
between = io 0x80 true 0 ∷ []

abbrev blk : Recv ℕ
blk = virtio_block_recv_request disk

abbrev net : Recv ℕ
net = virtio_net_recv_request count_bytes

runs_on : mvvm_run 2 3 blk net between vm ≡ done (vm, none)
unfolding mvvm_run run_exit io_exit power_exit
runs_on = refl

mvvmm_shutdown-stops_example :
    (io_exit (signalled vm) port false 9 ≡ go_on vm 1)
    × (power_work_func (my_irq_handler idle 1).1 ≡ true)
    × (io_exit vm port false 9 ≡ go_on vm 0)
    × (my_irq_handler idle 0 ≡ (false, idle))
    × (mvvm_run 2 3 blk net
          (io port false 9 ∷ (between ++ io mvvmm_poweroff.0 true mvvmm_poweroff.1 ∷ []))
          (signalled vm)
        ≡ done (vm, some 1))
mvvmm_shutdown-stops_example = mvvmm_shutdown-stops 2 3 blk net vm vm idle 9 between [] runs_on
