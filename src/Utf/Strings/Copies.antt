-- ===== src/Utf/Strings/Copies.antt =====
-- The copying loop, for any conversion that consumes source and keeps to `max_length`.
use bienutil.Base.{
  ℕ, zero, suc, ◌+◌, ◌-◌, ◌*◌, ◌≤◌, ◌<◌, ◌≡◌, ◌≢◌, refl, sym, ap, ◌∙◌, arith, List, [], ◌∷◌, ◌++◌,
  ltb, length, length-append, ◌⊎◌, some, Bool-cases, ltb→lt, inl, inr,
}
use mathlib.Core.List.{append_assoc, append-nil}
use bienutil.Utf.Scalar.{Converted, ok, err, ErrNo, Converted-cases}
use bienutil.Utf.Convert.Progress.{IsConverter}
use bienutil.Utf.Strings.{Copied, copied, spent, convert_loop, pc_convert_string, convert_string}

module _ (convert : List ℕ → Converted) where
  -- Repeated conversion reads the source up to `rest`, and writes the second index.
  pub data Runs (rest : List ℕ) : List ℕ → List ℕ → Type 0 where
    done : Runs rest rest []
    round :
        {c : ℕ} {src o next out : List ℕ}
        → convert (c ∷ src) ≡ ok o next
        → Runs rest next out
        → Runs rest (c ∷ src) (o ++ out)

module _ (convert : List ℕ → Converted) (max : ℕ) (good : IsConverter convert max) where
  pub round_any :
      {src o next rest out : List ℕ}
      → convert src ≡ ok o next
      → Runs convert rest next out
      → Runs convert rest src (o ++ out)
  round_any {src = []} {o = o} {next = next} e r = absurd (omega (arith, good.shrinks [] o next e))
  round_any {src = c ∷ src} e r = round e r

  abbrev loop : ℕ → List ℕ → ℕ → List ℕ → Copied
  loop = convert_loop convert max

  loop-not_spent :
      (fuel : ℕ) (src : List ℕ) (room : ℕ) (out : List ℕ)
      → length src ≤ fuel
      → loop fuel src room out ≢ spent
  unfolding convert_loop
  loop-not_spent zero [] room out h e = cc
  loop-not_spent zero (c ∷ src) room out h e = elim h [ ]
  loop-not_spent (suc fuel) [] room out h e = cc
  loop-not_spent (suc fuel) (c ∷ src) room out h e = elim (Converted-cases (convert (c ∷ src))) [
    | inl (o, rest, d) ↦
        let shorter = good.shrinks (c ∷ src) o rest d in
        ground (arith, d, loop-not_spent fuel rest (room - length o) (out ++ o))
    | inr (x, rest, d) ↦ ground (arith, d)
  ]

  loop-fits :
      (fuel : ℕ) (src : List ℕ) (room : ℕ) (out rest out' : List ℕ)
      → loop fuel src room out ≡ copied rest out'
      → length out' ≤ length out + room
  unfolding convert_loop
  loop-fits zero [] room out rest out' e = ground arith
  loop-fits zero (c ∷ src) room out rest out' e = cc
  loop-fits (suc fuel) [] room out rest out' e = ground arith
  loop-fits (suc fuel) (c ∷ src) room out rest out' e = elim (Converted-cases (convert (c ∷ src))) [
    | inl (o, rest', d) ↦
        let few = good.fits (c ∷ src) o rest' d in
        ground (
          arith,
          d,
          loop-fits fuel rest' (room - length o) (out ++ o) rest out',
          length-append out o,
        )
    | inr (x, rest', d) ↦ ground (arith, d)
  ]

  -- With room for the worst case the loop copies what repeated conversion gives.
  loop-Runs :
      (fuel : ℕ) {src out' : List ℕ} (room : ℕ) (out : List ℕ)
      → Runs convert [] src out'
      → length src ≤ fuel
      → max * length src ≤ room
      → loop fuel src room out ≡ copied [] (out ++ out')
  unfolding convert_loop
  loop-Runs zero room out done h k = ap (copied []) (sym (append-nil out))
  loop-Runs (suc fuel) room out done h k = ap (copied []) (sym (append-nil out))
  loop-Runs zero room out (round e r) h k = elim h [ ]
  loop-Runs (suc fuel) room out (round {c = c} {src = src} {o = o} {next = rest} {out = out'} e r) h
        k =
      let shorter = good.shrinks (c ∷ src) o rest e in
      let few = good.fits (c ∷ src) o rest e in
      let saved : max * length rest + max ≤ max * length (c ∷ src) = grind arith in
      ground (arith, e, loop-Runs fuel (room - length o) (out ++ o) r, append_assoc out o out')

  abbrev Reached : List ℕ → ℕ → List ℕ → List ℕ → List ℕ → Type 0
  Reached src room out rest out' =
      (o : List ℕ) × (out' ≡ out ++ o)
      × Runs convert rest src o
      × ((rest ≡ []) ⊎ (length out + room < length out' + max))

  stop :
      (src : List ℕ) (room : ℕ) (out rest out' : List ℕ)
      → copied src out ≡ copied rest out'
      → (src ≡ []) ⊎ (room < max)
      → Reached src room out rest out'
  stop src room out rest out' e why =
      let same : src ≡ rest = cc in
      let all : out' ≡ out = cc in
      ([], all ∙ sym (append-nil out), rw same done, ground (arith, ap length all))

  -- Where the loop ends well, it has converted up to the rest that it gives back, and has stopped
  -- at the source's end or where the room left is below `max_length`.
  loop-copied :
      (fuel : ℕ) (src : List ℕ) (room : ℕ) (out rest out' : List ℕ)
      → loop fuel src room out ≡ copied rest out'
      → Reached src room out rest out'
  unfolding convert_loop
  loop-copied zero [] room out rest out' e = stop [] room out rest out' e (inl refl)
  loop-copied zero (c ∷ src) room out rest out' e = cc
  loop-copied (suc fuel) [] room out rest out' e = stop [] room out rest out' e (inl refl)
  loop-copied (suc fuel) (c ∷ src) room out rest out' e = elim (Bool-cases (ltb room max)) [
    | inl full ↦ stop (c ∷ src) room out rest out' (ground (arith, e)) (inr (ltb→lt room max full))
    | inr free ↦ elim (Converted-cases (convert (c ∷ src))) [
      | inr (x, next, d) ↦ absurd (ground (arith, d))
      | inl (o, next, d) ↦
          let few = good.fits (c ∷ src) o next d in
          let more : loop fuel next (room - length o) (out ++ o) ≡ copied rest out' =
            ground (arith, d) in
          let (o', p, r, w) = loop-copied fuel next (room - length o) (out ++ o) rest out' more in
          (o ++ o', p ∙ append_assoc out o o', round d r, ground (arith, w, length-append out o))
    ]
  ]

  -- The fuel of `PCConvertString` never runs out.
  pub pc_convert_string-not_spent :
      (src : List ℕ) (room : ℕ) → pc_convert_string convert max src room ≢ spent
  unfolding pc_convert_string
  pc_convert_string-not_spent [] room e = cc
  pc_convert_string-not_spent (c ∷ src) room e =
      ground (arith, loop-not_spent (suc (length src)) (c ∷ src) room [])

  -- Where `PCConvertString` gives no error, it has converted the units of the source in order up
  -- to the rest that it gives back, has written no more than there was room for, and has stopped
  -- early only where fewer than `max_length` units of room were left.
  pub pc_convert_string-copied :
      (src : List ℕ) (room : ℕ) (rest out : List ℕ)
      → pc_convert_string convert max src room ≡ copied rest out
      → Runs convert rest src out × (length out ≤ room) × ((rest ≡ []) ⊎ (room < length out + max))
  unfolding pc_convert_string
  pc_convert_string-copied [] room rest out e =
      let (o, p, r, w) = stop [] room [] rest out e (inl refl) in
      (rw p r, ground arith, ground (arith, w))
  pc_convert_string-copied (c ∷ src) room rest out e =
      let entered : loop (suc (length src)) (c ∷ src) room [] ≡ copied rest out =
        ground (arith, e) in
      let (o, p, r, w) = loop-copied (suc (length src)) (c ∷ src) room [] rest out entered in
      (
        rw p r,
        omega (arith, loop-fits (suc (length src)) (c ∷ src) room [] rest out entered),
        ground (arith, w),
      )

  -- Where repeated conversion reads all of a string, `ConvertString` gives what it writes.
  pub convert_string-Runs :
      (src out : List ℕ) → Runs convert [] src out → convert_string convert max src ≡ some out
  unfolding convert_string pc_convert_string
  convert_string-Runs [] out done = refl
  convert_string-Runs (c ∷ src) out r =
      let whole =
        loop-Runs (suc (length src)) (max * suc (length src)) [] r (omega arith) (omega arith) in
      let room : max ≤ max * suc (length src) = grind arith in ground (arith, whole)

  -- A conversion that never fails reads all of every string.
  pub Runs-total :
      ((c : ℕ) (l : List ℕ) (e : ErrNo) (rest : List ℕ) → convert (c ∷ l) ≢ err e rest)
      → (n : ℕ) (src : List ℕ) → length src ≤ n
      → (out : List ℕ) × Runs convert [] src out
  Runs-total ok_all n [] h = ([], done)
  Runs-total ok_all zero (c ∷ src) h = elim h [ ]
  Runs-total ok_all (suc n) (c ∷ src) h = elim (Converted-cases (convert (c ∷ src))) [
    | inr (x, next, d) ↦ absurd (ok_all c src x next d)
    | inl (o, next, d) ↦
        let shorter = good.shrinks (c ∷ src) o next d in
        let (out, r) = Runs-total ok_all n next (omega arith) in (o ++ out, round d r)
  ]
