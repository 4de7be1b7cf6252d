-- ===== src/Virtio/Chain/Rest.antt =====
-- The two reads of a request's handler: the header at the front of the data, and all behind it.
use mvvmm.Base.{
  ℕ, zero, suc, ◌+◌, ◌^◌, ◌≤◌, ◌<◌, ◌≡◌, refl, ap, ◌∙◌, false, List, [], ◌∷◌, length, take, drop,
  replicate, length-take, length-drop, length-replicate, done, success, arith,
}
use mvvmm.Guest.{GuestMem}
use mvvmm.Virtio.Device.{QueueState}
use mvvmm.Virtio.Chain.{VirtioDesc, memcpy_from_queue}
use mvvmm.Virtio.Chain.Layout.{splice_whole}
use mvvmm.Virtio.Chain.Sizes.{total_len}
use mvvmm.Virtio.Chain.Data.{data_of, length-data_of}
use mvvmm.Virtio.Chain.Locate.{Front}
use mvvmm.Virtio.Chain.Gather.{memcpy_from_queue-data_of}

take-all {ℓ} : {A : Type ℓ} (n : ℕ) (xs : List A) → length xs ≤ n → take n xs ≡ xs
take-all zero [] h = refl
take-all zero (x ∷ xs) h = absurd (omega arith)
take-all (suc n) [] h = refl
take-all (suc n) (x ∷ xs) h = ap (◌∷◌ x) (take-all n xs (omega arith))

module _ (m : GuestMem) (bounded : m.size < 2 ^ 64) (qs : QueueState) (idx : ℕ) (d : VirtioDesc)
    (ds : List VirtioDesc) (front : Front false m qs idx d ds) where
  -- A buffer of `n` zeros takes the `n` bytes of the data from `offset` on.
  window :
      (offset n : ℕ)
      → 0 < n
      → offset + n ≤ total_len (d ∷ ds)
      → total_len (d ∷ ds) < 2 ^ 31
      → memcpy_from_queue m (replicate n 0) qs idx offset n
        ≡ done (success, m, take n (drop offset (data_of m (d ∷ ds))))
  window offset n pos fits small =
      let zeros : List ℕ = replicate n 0 in
      let long : length zeros ≡ n = length-replicate n 0 in
      let same : length zeros ≡ length (take n (drop offset (data_of m (d ∷ ds)))) = omega (
        arith,
        long,
        length-take n (drop offset (data_of m (d ∷ ds))),
        length-drop offset (data_of m (d ∷ ds)),
        length-data_of m (d ∷ ds),
      ) in
      memcpy_from_queue-data_of m bounded qs zeros idx offset n d ds front pos (omega arith)
        (omega arith) fits (omega arith) (omega arith)
      ∙ ap (λ b. done (success, m, b)) (splice_whole zeros _ same)

  pub read-header :
      (n : ℕ)
      → 0 < n
      → n ≤ total_len (d ∷ ds)
      → total_len (d ∷ ds) < 2 ^ 31
      → memcpy_from_queue m (replicate n 0) qs idx 0 n
        ≡ done (success, m, take n (data_of m (d ∷ ds)))
  read-header n pos fits small = window 0 n pos (omega arith) small

  pub read-rest :
      (offset n : ℕ)
      → 0 < n
      → offset + n ≡ total_len (d ∷ ds)
      → total_len (d ∷ ds) < 2 ^ 31
      → memcpy_from_queue m (replicate n 0) qs idx offset n
        ≡ done (success, m, drop offset (data_of m (d ∷ ds)))
  read-rest offset n pos all small =
      window offset n pos (omega arith) small
      ∙ ap (λ b. done (success, m, b))
          (take-all n (drop offset (data_of m (d ∷ ds)))
            (omega (arith, length-drop offset (data_of m (d ∷ ds)), length-data_of m (d ∷ ds))))
