-- ===== src/Lib.antt =====
-- The emulated devices of mvvmm, a small virtual machine monitor on KVM.
--
-- A guest of mvvmm reaches two virtio devices by memory-mapped registers and shares its RAM with
-- them, and one serial port by I/O ports. The driver in the guest lays out three areas of a queue in
-- its RAM (descriptor table, available ring, used ring), writes their addresses to registers, and
-- notifies the device; the device walks the chains of descriptors, copies data between the guest's
-- RAM and its own buffers, hands requests to the disk or to the tap interface, and returns the chains
-- by the used ring and an interrupt.
--
-- Files and the code that they model:
--   Base                 tests, lists, machine words, bit operations, and `Outcome`, the result of C
--                        code: a value, an undefined access, a call of `abort`, or fuel that ran out
--   Guest                `struct guest_mem_map` (mvvm.h) and accesses to the mapping
--   Virtio/Memory        virtio.c: guest_addr_to_host_addr, virtio_read16, virtio_write16,
--                        virtio_write32, virtio_memcpy_from_guest, virtio_memcpy_to_guest
--   Virtio/Device        virtio.c: struct queue_state, struct virtio_device, virtio_reset, the front
--                        part of virtio_init
--   Virtio/Chain         virtio.c: get_desc, get_desc_rw_size, memcpy_to_from_queue and its two
--                        wrappers
--   Virtio/Queue         virtio.c: virtio_consume_desc, trigger_irqfd, queue_notify
--   Virtio/Config        virtio.c: the configuration space and the little-endian helpers
--   Virtio/Mmio          virtio.c: virtio_mmio_read, virtio_mmio_write
--   Virtio/Block         virtio.c: virtio_block_req_end, virtio_block_req_cb,
--                        virtio_block_recv_request
--   Virtio/Net           virtio.c: virtio_net_recv_request, virtio_net_can_write_packet,
--                        virtio_net_write_packet
--   Virtio/Events        virtio.c: irqfd and ioeventfd of a device, virtio_block_init, virtio_net_init
--                        and the destruction of the devices; Poll: the thread that polls them, over
--                        the counters
--   Serial               serial.c
--   Vmm                  mvvm.c: the memory regions of mvvm_init, setup_e820_map, load_initrd,
--                        handle_power, mvvmm_shutdown
--   Vmm/Load             mvvm.c: cmdline_concat, mvvm_load_kernel
--   Vmm/Run              mvvm.c: the loop of mvvm_run over the exits of the virtual CPU; Rounds: over the
--                        results of KVM_RUN, with mask_sigterm, unmask_sigterm and the handler of
--                        SIGTERM; Power: what the exits do to power_cmd
--   Vmm/Setup            mvvm.c: mvvm_init, init_cpu, set_flat_mode, mvvm_destroy, as actions on the
--                        struct and the list of the calls of the system
--   Main                 main.c: main, the terminal, the signal handlers; mvvm.c: map_file
--   Cli/MemorySize       main.c: parse_memory_size
--   Cli/Options          main.c: parse_opts, over what `getopt` finds
--   Cli/Keyboard         main.c: timed_getchar, keyboard_thread_func
--   ThreadPool           threadpool.c, as steps of the calls and of the workers
--   Disk                 blkdev.c: block_io_worker_fn, block_read_async, block_write_async,
--                        mvvm_init_virtio_blk, mvvm_destroy_virtio_blk; Disk/Service: a request of
--                        the guest through virtio.c, the pool and blkdev.c; Disk/Pool: the requests
--                        that the pool runs, in any order
--   Tap                  netdev.c: write_packet_to_ether, timed_read, tap_net_rx_thread,
--                        mvvm_init_virtio_net, mvvm_destroy_virtio_net; Tap/Service: packets between
--                        the interface and the queues; Tap/Waiting: the thread once quit is set
--   GuestModule          guest-module/mvvmm_guest.c, and a shutdown from the host's signal on
--   Tests                concrete runs
--
-- State. `Machine B` is a device at work: its own fields, the guest's memory, the interrupts that it
-- raised, and the state `B` of what stands behind it. A handler takes a `Machine` and returns an
-- `Outcome` of one. The disk (`struct block_device`), the function that takes packets, `pread`,
-- `pwrite`, the layout of `struct boot_params` and `strtoull` of the C library are parameters.
-- Handlers hold the device's lock from the first line to the last, so each is one step. The thread
-- pool is a relation between its states, with a step for each part of the code between two points
-- where a thread takes, holds or waits for a lock.
--
-- Numbers. Words are native numbers with the modulus written out. An `int` is its 32-bit pattern;
-- signed arithmetic wraps, as it does in a build without optimisation, which the Makefile makes. The
-- host is little-endian. A load or store outside the mapping, or outside a buffer of the process, is
-- a `crash`. `malloc` of a size that is not negative succeeds, but in blkdev.c and
-- netdev.c and in the set-up of mvvm.c, where its failure is a case of the model.
--
-- Fuel. The copies from and to the guest's memory get `count + 1` rounds, and each round copies a
-- byte at least. The loops of memcpy_to_from_queue have their bound of 1025 rounds from the source.
-- get_desc_rw_size has none in the source: the model takes fuel, which is enough if it is the number
-- of descriptors of the chain. queue_notify takes one round for each request that waits and one more.
--
-- Calls of the system are inputs of the code behind them: what they return is a list or a record,
-- over all of whose values the theorems speak. In Vmm/Setup the answer of the host is a function of
-- the call, and each call of the set-up is made once; the calls are recorded, latest first. `main` is
-- the composition of the other files: parse_opts, mvvm_init, mvvm_load_kernel, mvvm_run and
-- mvvm_destroy, and its result is the status of the process, or none while the machine runs.
--
-- The notifications of the guest and `poll` on eventfds are inputs of the thread that polls them; that
-- `poll` reports exactly the counters that are not 0 is a hypothesis. SIGTERM comes in Vmm/Run/Rounds
-- at any place of a round to the thread of mvvm_run. At the end of `main` what comes of each thread
-- that is waited for is an input (`Ending`): it ends, it uses memory that has been unmapped or freed,
-- which is a `crash`, or it goes on; of the thread that brings packets it is computed from what the
-- interface gives.
--
-- Not modelled: a handler of SIGTERM that another thread runs; print_usage, which only prints; the mapping of `struct kvm_run` at the start of
-- mvvm_run, whose failure ends the process; serial_destroy, which is called nowhere; virtio_set_debug;
-- and what `free` gives back, but for the CPUID entries and what the two devices hold.
pub mod Base
pub mod Guest
pub mod Virtio
pub mod Serial
pub mod ThreadPool
pub mod Disk
pub mod Tap
pub mod GuestModule
pub mod Main
pub mod Vmm
pub mod Cli
pub mod Tests
