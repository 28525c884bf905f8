-- ===== src/Utf/Strings.antt =====
-- utfconvert.h, the loops over whole strings: `PCConvertString`, `FWriteUTFStream` and
-- `FWriteUTFFunctor` (one loop, over a stream's `FWrite` or over a functor), and
-- `ns_CONVBIEN::ConvertString`, for source and destination characters of different sizes. The
-- conversion and its destination's `max_length` are parameters. Each round consumes source, so the
-- source's length is fuel enough; `spent` says that it ran out.
pub mod Copies
pub mod Texts
pub mod Writes
use bienutil.Base.{
  ℕ, zero, suc, ◌+◌, ◌-◌, ◌*◌, min, Bool, true, false, Option, none, some, List, [], ◌∷◌, ◌++◌, ltb,
  leb, if◌then◌else◌, length, drop,
}
use bienutil.Utf.Scalar.{Converted, ok, err, ErrNo, invalid_argument}

-- What a call left: the unread source with all that was written, or a null pointer with it.
pub data Copied : Type 0 where
  copied : List ℕ → List ℕ → Copied
  stopped : ErrNo → List ℕ → Copied
  spent : Copied

module _ (convert : List ℕ → Converted) (max_length : ℕ) where
  -- The loop, with `room` for `_nchDest` and what was written so far.
  unfoldable pub convert_loop : ℕ → List ℕ → ℕ → List ℕ → Copied
  convert_loop zero [] room out = copied [] out
  convert_loop zero (c ∷ src) room out = spent
  convert_loop (suc fuel) [] room out = copied [] out
  convert_loop (suc fuel) (c ∷ src) room out =
      if ltb room max_length then copied (c ∷ src) out else (elim (convert (c ∷ src)) [
        | err e rest ↦ stopped e out
        | ok o rest ↦ convert_loop fuel rest (room - length o) (out ++ o)
      ])

  unfoldable pub pc_convert_string : List ℕ → ℕ → Copied
  pc_convert_string [] room = copied [] []
  pc_convert_string (c ∷ src) room =
      if ltb room max_length
      then stopped invalid_argument []
      else convert_loop (length (c ∷ src)) (c ∷ src) room []

  -- Room for the worst case; `none` is the exception. The buffer on the stack and the one in the
  -- string itself hold the same.
  pub convert_string : List ℕ → Option (List ℕ)
  unfolding pc_convert_string
  convert_string src = elim (pc_convert_string src (max_length * length src)) [
    | copied rest out ↦ some out
    | stopped e out ↦ none
    | spent ↦ none
  ]

-- The writer returns whether it succeeded, and its state after the call.
module _ {S : Type 0} (convert : List ℕ → Converted) (write : S → List ℕ → Bool × S) where
  pub write_loop : ℕ → List ℕ → S → Bool × S
  write_loop zero src s = (false, s)
  write_loop (suc fuel) [] s = (true, s)
  write_loop (suc fuel) (c ∷ src) s = elim (convert (c ∷ src)) [
    | err e rest ↦ (false, s)
    | ok o rest ↦
        let (written, s') = write s o in
        elim written [ true ↦ write_loop fuel rest s' | false ↦ (false, s') ]
  ]

  pub f_write_utf : List ℕ → S → Bool × S
  unfolding write_loop
  f_write_utf src s = write_loop (suc (length src)) src s
