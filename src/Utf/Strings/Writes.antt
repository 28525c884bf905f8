-- ===== src/Utf/Strings/Writes.antt =====
-- The writing loop, for any writer.
use bienutil.Base.{
  ℕ, zero, suc, ◌<◌, ◌≡◌, ◌↔◌, refl, arith, Bool, true, List, [], ◌∷◌, length, Bool-cases, inl, inr,
}
use bienutil.Utf.Scalar.{Converted, ok, Converted-cases}
use bienutil.Utf.Convert.Progress.{IsConverter}
use bienutil.Utf.Strings.{write_loop, f_write_utf}

module _ {S : Type 0} (convert : List ℕ → Converted) (write : S → List ℕ → Bool × S) where
  -- Every unit of the source is converted, and every result is written in order with success.
  pub data Written (last : S) : List ℕ → S → Type 0 where
    done : Written last [] last
    chunk :
        {c : ℕ} {src o rest : List ℕ} {s next : S}
        → convert (c ∷ src) ≡ ok o rest
        → write s o ≡ (true, next)
        → Written last rest next
        → Written last (c ∷ src) s

module _ {S : Type 0} (convert : List ℕ → Converted) (write : S → List ℕ → Bool × S) (max : ℕ)
    (good : IsConverter convert max) where
  loop-Written :
      (fuel : ℕ) (src : List ℕ) (s last : S)
      → write_loop convert write fuel src s ≡ (true, last)
      → Written convert write last src s
  unfolding write_loop
  loop-Written zero src s last h = cc
  loop-Written (suc fuel) [] s last h = let e : s ≡ last = cc in rw e done
  loop-Written (suc fuel) (c ∷ src) s last h = elim (Converted-cases (convert (c ∷ src))) [
    | inr (x, rest, e) ↦ absurd (ground (arith, e))
    | inl (o, rest, e) ↦ elim (Bool-cases (write s o).0) [
      | inr refused ↦ absurd (ground (arith, e))
      | inl fine ↦
          let pair : write s o ≡ (true, (write s o).1) = ground (arith, fine) in
          let more : write_loop convert write fuel rest (write s o).1 ≡ (true, last) =
            ground (arith, e) in
          chunk e pair (loop-Written fuel rest (write s o).1 last more)
    ]
  ]

  Written-loop :
      (fuel : ℕ) {src : List ℕ} {s last : S}
      → Written convert write last src s
      → length src < fuel
      → write_loop convert write fuel src s ≡ (true, last)
  unfolding write_loop
  Written-loop zero w h = elim h [ ]
  Written-loop (suc fuel) done h = refl
  Written-loop (suc fuel) (chunk {c = c} {src = src} {o = o} {rest = rest} e d w) h =
      let shorter = good.shrinks (c ∷ src) o rest e in
      ground (arith, e, d, Written-loop fuel w (omega arith))

  -- `FWriteUTFStream` and `FWriteUTFFunctor` return true exactly when every unit of the source was
  -- converted and every result was written, in order, with success; the writer is then in the
  -- state that those writes leave.
  pub f_write_utf-Written_iff :
      (src : List ℕ) (s last : S)
      → (f_write_utf convert write src s ≡ (true, last)) ↔ Written convert write last src s
  unfolding f_write_utf
  f_write_utf-Written_iff src s last = (
    loop-Written (suc (length src)) src s last,
    λ w. Written-loop (suc (length src)) w (omega arith),
  )
