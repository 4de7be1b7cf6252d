-- ===== src/Guest.antt =====
-- The guest's RAM as the host process sees it: `struct guest_mem_map` of mvvm.h, and the loads,
-- stores and `memcpy` calls of virtio.c on `host_mem`. An access outside `[0, size)` is outside the
-- mapping, which C leaves undefined: it is a `crash`. The host is little-endian (x86).
pub mod Words
pub mod Frame
use mvvmm.Base.{
  ℕ, zero, suc, ◌+◌, ◌-◌, ◌*◌, ◌/◌, ◌%◌, List, [], ◌∷◌, ◌&&◌, ltb, leb, if◌then◌else◌, length,
  get_or, Outcome, done, crash,
}

pub record GuestMem : Type 0 where
  pub size : ℕ
  pub byte : ℕ → ℕ

-- The `n` bytes from `p` on.
abbrev pub bytes_at : (ℕ → ℕ) → ℕ → ℕ → List ℕ
bytes_at f p zero = []
bytes_at f p (suc n) = f p ∷ bytes_at f (p + 1) n

-- `f` with the bytes `bs` written from `p` on.
unfoldable pub overlay : (ℕ → ℕ) → ℕ → List ℕ → ℕ → ℕ
overlay f p bs q = if leb p q && ltb q (p + length bs) then get_or bs (q - p) 0 else f q

unfoldable pub load_bytes : GuestMem → ℕ → ℕ → Outcome (List ℕ)
load_bytes m p n = if leb (p + n) m.size then done (bytes_at m.byte p n) else crash

unfoldable pub store_bytes : GuestMem → ℕ → List ℕ → Outcome GuestMem
store_bytes m p bs =
    if leb (p + length bs) m.size then done (record m { byte = overlay m.byte p bs }) else crash

-- Little-endian numbers.
abbrev pub le_value : List ℕ → ℕ
le_value [] = 0
le_value (b ∷ bs) = b + 256 * le_value bs

abbrev pub le_bytes : ℕ → ℕ → List ℕ
le_bytes zero v = []
le_bytes (suc n) v = (v % 256) ∷ le_bytes n (v / 256)
