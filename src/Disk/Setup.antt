-- ===== src/Disk/Setup.antt =====
-- `mvvm_init_virtio_blk` and `mvvm_destroy_virtio_blk`: what the process holds when they return.
use mvvmm.Base.{
  ℕ, ◌≡◌, refl, ◌&&◌, Bool, true, false, Option, none, some, List, [], ◌∷◌, if◌then◌else◌, Code,
  success, failure, Outcome, done, crash,
}
use mvvmm.Virtio.Device.{Device}
use mvvmm.Virtio.Events.{InitCalls, Ending, join, virtio_block_init}
use mvvmm.Disk.{block_get_sector_count}

-- What the set-up allocates or opens.
pub data Resource : Type 0 where
  context descriptor pool device_struct virtio : Resource

-- The results of the calls: whether each of them succeeds, `fstat` with the size of the file, and
-- those of virtio_block_init, before which the process has `open_fds` open.
pub record Calls : Type 0 where
  pub malloc_ctx : Bool
  pub open_file : Bool
  pub fstat : Option ℕ
  pub new_thread_pool : Bool
  pub malloc_bs : Bool
  pub events : InitCalls
  pub open_fds : List ℕ

-- The label `fail`: `bs`, the descriptor if it is not negative, and the context are given back.
unfoldable pub fail_label : List Resource → List Resource
fail_label [] = []
fail_label (pool ∷ held) = pool ∷ fail_label held
fail_label (virtio ∷ held) = virtio ∷ fail_label held
fail_label (_ ∷ held) = fail_label held

-- What `self->blk` is assigned.
unfoldable pub block_device_of : Calls → ℕ → Option Device
block_device_of c size = (virtio_block_init c.events c.open_fds (block_get_sector_count size)).0

-- The descriptors behind virtio_block_init: those of the device are among them, and behind a failure what it
-- has left open.
unfoldable pub block_fds_of : Calls → ℕ → List ℕ
block_fds_of c size =
    ((virtio_block_init c.events c.open_fds (block_get_sector_count size)).1).open_fds

-- The result, `self->blk`, what is held, and the descriptors that are open but that of the file.
unfoldable pub mvvm_init_virtio_blk :
    Calls → Option Device → Code × Option Device × List Resource × List ℕ
unfolding block_device_of block_fds_of
mvvm_init_virtio_blk c blk =
    if c.malloc_ctx
    then if c.open_file
      then elim c.fstat [
        | none ↦ (failure, blk, fail_label (context ∷ descriptor ∷ []), c.open_fds)
        | some size ↦
            if c.new_thread_pool
            then if c.malloc_bs
              then elim (block_device_of c size) [
                | some dev ↦ (
                  success,
                  some dev,
                  context ∷ descriptor ∷ pool ∷ device_struct ∷ virtio ∷ [],
                  block_fds_of c size,
                )
                | none ↦ (
                  failure,
                  none,
                  fail_label (context ∷ descriptor ∷ pool ∷ device_struct ∷ []),
                  block_fds_of c size,
                )
              ]
              else (failure, blk, fail_label (context ∷ descriptor ∷ pool ∷ []), c.open_fds)
            else (failure, blk, fail_label (context ∷ descriptor ∷ []), c.open_fds)
      ]
      else (failure, blk, fail_label (context ∷ []), c.open_fds)
    else (failure, blk, [], c.open_fds)

-- The pool, the context, the `struct block_device` and the device go; the descriptor stays open.
unfoldable pub released : List Resource → List Resource
released [] = []
released (descriptor ∷ held) = descriptor ∷ released held
released (_ ∷ held) = released held

-- What the process holds when the device has been destroyed; of NULL the context is read through it.
-- The workers of the pool are waited for first, while they end the requests that are left; then the pool and
-- the context are gone, and the thread of the ioeventfds is waited for, which may still serve a request.
unfoldable pub mvvm_destroy_virtio_blk :
    Ending → Ending → Option Device → List Resource → Outcome (List Resource)
unfolding join
mvvm_destroy_virtio_blk workers poller none held = crash
mvvm_destroy_virtio_blk workers poller (some dev) held =
    join workers (join poller (done (released held)))

unfoldable pub is_some : Option Device → Bool
is_some none = false
is_some (some dev) = true

-- The device behind the calls for the file and the pool, if they all succeed.
unfoldable pub made_device : Calls → Option Device
made_device c = elim c.fstat [
  | none ↦ none
  | some size ↦
      if c.malloc_ctx && c.open_file && c.new_thread_pool && c.malloc_bs
      then block_device_of c size
      else none
]

-- The descriptors behind virtio_block_init.
abbrev pub open_behind : Calls → List ℕ
open_behind c = elim c.fstat [ none ↦ c.open_fds | some size ↦ block_fds_of c size ]

unfoldable pub pool_made : Calls → Bool
pool_made c = elim c.fstat [
  | none ↦ false
  | some size ↦ c.malloc_ctx && c.open_file && c.new_thread_pool
]

module _ (events : InitCalls) (open_fds : List ℕ) (blk : Option Device) where
  abbrev calls : Bool → Bool → Option ℕ → Bool → Bool → Calls
  calls ctx file size threads bs = record {
    malloc_ctx = ctx;
    open_file = file;
    fstat = size;
    new_thread_pool = threads;
    malloc_bs = bs;
    events = events;
    open_fds = open_fds;
  }

  abbrev Leaves : Calls → Option Device → Type 0
  Leaves c dev =
      ((mvvm_init_virtio_blk c blk).0 ≡ (if is_some dev then success else failure))
      × ((mvvm_init_virtio_blk c blk).2 ≡ (
          if is_some dev
          then context ∷ descriptor ∷ pool ∷ device_struct ∷ virtio ∷ []
          else if pool_made c
          then pool ∷ []
          else []))

  with_device :
      (size : ℕ) (dev : Option Device)
      → block_device_of (calls true true (some size) true true) size ≡ dev
      → Leaves (calls true true (some size) true true) dev
  unfolding mvvm_init_virtio_blk fail_label pool_made is_some
  with_device size none e = rw e (refl, refl)
  with_device size (some dev) e = rw e (refl, refl)

  with_some :
      (size : ℕ) (dev : Option Device)
      → block_device_of (calls true true (some size) true true) size ≡ dev
      → {d : Device} → dev ≡ some d
      → mvvm_init_virtio_blk (calls true true (some size) true true) blk ≡ (
        success,
        some d,
        context ∷ descriptor ∷ pool ∷ device_struct ∷ virtio ∷ [],
        block_fds_of (calls true true (some size) true true) size,
      )
  unfolding mvvm_init_virtio_blk
  with_some size none e f = cc
  with_some size (some dev) e f = rw (e, f) refl

  makes :
      (ctx file : Bool) (size : Option ℕ) (threads bs : Bool) {d : Device}
      → made_device (calls ctx file size threads bs) ≡ some d
      → mvvm_init_virtio_blk (calls ctx file size threads bs) blk ≡ (
        success,
        some d,
        context ∷ descriptor ∷ pool ∷ device_struct ∷ virtio ∷ [],
        open_behind (calls ctx file size threads bs),
      )
  unfolding made_device
  makes ctx file none threads bs e = cc
  makes false file (some size) threads bs e = cc
  makes true false (some size) threads bs e = cc
  makes true true (some size) false bs e = cc
  makes true true (some size) true false e = cc
  makes true true (some size) true true e = with_some size _ refl e

-- Where all the calls succeed, the device is the one of virtio_block_init.
pub mvvm_init_virtio_blk-made :
    (c : Calls) (blk : Option Device) {dev : Device}
    → made_device c ≡ some dev
    → mvvm_init_virtio_blk c blk ≡ (
      success,
      some dev,
      context ∷ descriptor ∷ pool ∷ device_struct ∷ virtio ∷ [],
      open_behind c,
    )
mvvm_init_virtio_blk-made c blk =
    makes c.events c.open_fds blk c.malloc_ctx c.open_file c.fstat c.new_thread_pool c.malloc_bs
