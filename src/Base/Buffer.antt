-- ===== src/Base/Buffer.antt =====
-- Buffers of the host process: a `memcpy` into or out of one, at a position. Past the end of the
-- buffer C leaves the access undefined: it is a `crash`.
use Prim.Native.Nat.{ℕ, zero, suc, ◌+◌, ◌≤◌}
use mathlib.Core.Path.{◌≡◌, refl, ap, sym, ◌∙◌}
use mathlib.Core.List.{List, [], ◌∷◌, ◌++◌, append_assoc}
use native.Mathlib.Omega.{arith}
use mvvmm.Base.Tests.{leb, if◌then◌else◌, le→leb}
use mvvmm.Base.Lists.{length, take, drop, length-append, length-drop, length-take, take-append-drop}
use mvvmm.Base.Result.{Outcome, done, crash}

module _ {ℓ} {A : Type ℓ} where
  -- `buf` with `bs` in place of what stands from `pos` on.
  unfoldable pub splice : List A → ℕ → List A → List A
  splice buf zero bs = bs ++ drop (length bs) buf
  splice [] (suc pos) bs = []
  splice (x ∷ buf) (suc pos) bs = x ∷ splice buf pos bs

  unfoldable pub write_buf : List A → ℕ → List A → Outcome (List A)
  write_buf buf pos bs =
      if leb (pos + length bs) (length buf) then done (splice buf pos bs) else crash

  unfoldable pub read_buf : List A → ℕ → ℕ → Outcome (List A)
  read_buf buf pos n = if leb (pos + n) (length buf) then done (take n (drop pos buf)) else crash

  pub write_buf-done :
      (buf : List A) (pos : ℕ) (bs : List A)
      → pos + length bs ≤ length buf
      → write_buf buf pos bs ≡ done (splice buf pos bs)
  unfolding write_buf
  write_buf-done buf pos bs h = rw (le→leb h)

  pub read_buf-done :
      (buf : List A) (pos n : ℕ)
      → pos + n ≤ length buf
      → read_buf buf pos n ≡ done (take n (drop pos buf))
  unfolding read_buf
  read_buf-done buf pos n h = rw (le→leb h)

  pub length-splice :
      (buf : List A) (pos : ℕ) (bs : List A)
      → pos + length bs ≤ length buf
      → length (splice buf pos bs) ≡ length buf
  unfolding splice
  length-splice buf zero bs h =
      omega (arith, length-append bs (drop (length bs) buf), length-drop (length bs) buf)
  length-splice [] (suc pos) bs h = absurd (omega arith)
  length-splice (x ∷ buf) (suc pos) bs h = ap suc (length-splice buf pos bs (omega arith))

  pub splice-nil : (buf : List A) (pos : ℕ) → splice buf pos [] ≡ buf
  unfolding splice
  splice-nil buf zero = refl
  splice-nil [] (suc pos) = refl
  splice-nil (x ∷ buf) (suc pos) = ap (◌∷◌ x) (splice-nil buf pos)

  splice-front :
      (cs rest bs : List A)
      → splice (cs ++ rest) (length cs) bs ≡ cs ++ (bs ++ drop (length bs) rest)
  unfolding splice
  splice-front [] rest bs = refl
  splice-front (a ∷ cs) rest bs = ap (◌∷◌ a) (splice-front cs rest bs)

  drop-append :
      (cs bs buf : List A) → drop (length bs) (drop (length cs) buf) ≡ drop (length (cs ++ bs)) buf
  drop-append [] bs buf = refl
  drop-append (a ∷ cs) [] [] = refl
  drop-append (a ∷ cs) (b ∷ bs) [] = refl
  drop-append (a ∷ cs) bs (x ∷ buf) = drop-append cs bs buf

  drop-front : (xs ys : List A) (n : ℕ) → n ≤ length xs → drop n (xs ++ ys) ≡ drop n xs ++ ys
  drop-front xs ys zero h = refl
  drop-front [] ys (suc n) h = absurd (omega arith)
  drop-front (x ∷ xs) ys (suc n) h = drop-front xs ys n (omega arith)

  -- Two `memcpy` calls end to end are one.
  pub splice-splice :
      (buf : List A) (pos : ℕ) (cs bs : List A)
      → splice (splice buf pos cs) (pos + length cs) bs ≡ splice buf pos (cs ++ bs)
  unfolding splice
  splice-splice buf zero cs bs =
      let start : 0 + length cs ≡ length cs = omega arith in
      rw (start, splice-front cs (drop (length cs) buf) bs, drop-append cs bs buf, append_assoc)
  splice-splice [] (suc pos) cs bs =
      let step : suc pos + length cs ≡ suc (pos + length cs) = omega arith in rw step
  splice-splice (x ∷ buf) (suc pos) cs bs =
      let step : suc pos + length cs ≡ suc (pos + length cs) = omega arith in
      rw step (ap (◌∷◌ x) (splice-splice buf pos cs bs))

  pub splice-append :
      (xs ys : List A) (pos : ℕ) (bs : List A)
      → pos + length bs ≤ length xs
      → splice (xs ++ ys) pos bs ≡ splice xs pos bs ++ ys
  unfolding splice
  splice-append xs ys zero bs h =
      ap (λ rest. bs ++ rest) (drop-front xs ys (length bs) (omega arith))
      ∙ sym (append_assoc bs (drop (length bs) xs) ys)
  splice-append [] ys (suc pos) bs h = absurd (omega arith)
  splice-append (x ∷ xs) ys (suc pos) bs h = ap (◌∷◌ x) (splice-append xs ys pos bs (omega arith))

  pub splice-behind :
      (xs ys : List A) (pos : ℕ) (bs : List A)
      → splice (xs ++ ys) (length xs + pos) bs ≡ xs ++ splice ys pos bs
  unfolding splice
  splice-behind [] ys pos bs = let start : 0 + pos ≡ pos = omega arith in rw start refl
  splice-behind (x ∷ xs) ys pos bs =
      let step : suc (length xs) + pos ≡ suc (length xs + pos) = omega arith in
      rw step (ap (◌∷◌ x) (splice-behind xs ys pos bs))

  -- A write that begins in `xs` and goes on in `ys`.
  pub splice-across :
      (xs ys : List A) (pos c : ℕ) (bs : List A)
      → pos + c ≡ length xs
      → c ≤ length bs
      → splice (xs ++ ys) pos bs ≡ splice xs pos (take c bs) ++ splice ys 0 (drop c bs)
  splice-across xs ys pos c bs at_end enough =
      let taken : length (take c bs) ≡ c = omega (arith, length-take c bs) in
      let fits : pos + length (take c bs) ≤ length xs = omega arith in
      let there : pos + length (take c bs) ≡ length (splice xs pos (take c bs)) + 0 =
        omega (arith, length-splice xs pos (take c bs) fits) in
      ap (splice (xs ++ ys) pos) (sym (take-append-drop c bs))
      ∙ sym (splice-splice (xs ++ ys) pos (take c bs) (drop c bs))
      ∙ ap (λ b. splice b (pos + length (take c bs)) (drop c bs))
          (splice-append xs ys pos (take c bs) fits)
      ∙ ap (λ i. splice (splice xs pos (take c bs) ++ ys) i (drop c bs)) there
      ∙ splice-behind (splice xs pos (take c bs)) ys 0 (drop c bs)
