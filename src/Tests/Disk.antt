-- ===== src/Tests/Disk.antt =====
-- A regular file in memory.
use mvvmm.Base.{ℕ, ◌≡◌, ap, sym, ◌∙◌, some, Option, take, splice, arith}
use mvvmm.Guest.{bytes_at, overlay}
use mvvmm.Disk.{FileOps}
use mvvmm.Disk.Sectors.{IsFile}

-- A file that takes and gives all that is asked for.
abbrev pub Bytes : Type 0
Bytes = ℕ → ℕ

abbrev pub ops : FileOps Bytes
ops = record {
  pread = λ f buf count offset. (some count, splice buf 0 (bytes_at f offset count));
  pwrite = λ f buf count offset. (some count, overlay f offset (take count buf));
}

some_injective : {a b : ℕ} → some a ≡ some b → a ≡ b
some_injective e = cc

pub ops-IsFile : IsFile ops (λ f. f)
ops-IsFile = record {
  reads = λ f buf count offset n buf' e.
      let same : count ≡ n = some_injective (ap (λ r. r.0) e) in
      (omega arith, sym (ap (λ r. r.1) e) ∙ ap (λ k. splice buf 0 (bytes_at f offset k)) same);
  writes = λ f f' buf count offset n e.
      let same : count ≡ n = some_injective (ap (λ r. r.0) e) in
      (
        omega arith,
        λ p.
            ap (λ (r : Option ℕ × Bytes). r.1 p) (sym e)
            ∙ ap (λ k. overlay f offset (take k buf) p) same,
      );
}

abbrev pub empty : Bytes
empty = λ p. 0
