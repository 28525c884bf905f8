-- ===== src/Utf/Decode/Sequence.antt =====
-- What the byte tables and `PcValidUTF8Sequence` say of a sequence.
use bienutil.Base.{
  ℕ, ◌<◌, ◌≡◌, refl, sym, Bool, true, false, not, ◌&&◌, ltb, leb, ◌==◌, ==_iff, if◌then◌else◌,
  all_below, all_below_sound,
}
use bienutil.Utf.Decode.{trail_bytes, f_is_trail_byte_utf8}

-- The table, and the test on a trail byte, as ranges.
abbrev pub trail_count : ℕ → ℕ
trail_count b =
    if ltb b 0xc0
    then 0
    else if ltb b 0xe0
    then 1
    else if ltb b 0xf0
    then 2
    else if ltb b 0xf8
    then 3
    else if ltb b 0xfc
    then 4
    else 5

trail_entry : ℕ → Bool
trail_entry b = trail_bytes b == trail_count b

trail_entry_table : all_below 256 trail_entry ≡ true
unfolding trail_entry all_below trail_bytes
trail_entry_table = refl

pub trail_bytes-trail_count : (b : ℕ) → b < 256 → trail_bytes b ≡ trail_count b
unfolding trail_entry
trail_bytes-trail_count b h = (==_iff _ _).0 (all_below_sound 256 trail_entry b trail_entry_table h)

abbrev is_trail : ℕ → Bool
is_trail b = leb 0x80 b && ltb b 0xc0

trail_test : ℕ → Bool
trail_test b = if f_is_trail_byte_utf8 b then is_trail b else not (is_trail b)

trail_test_table : all_below 256 trail_test ≡ true
unfolding trail_test all_below f_is_trail_byte_utf8
trail_test_table = refl

pub f_is_trail_byte_utf8_lem :
    (b : ℕ) → b < 256 → f_is_trail_byte_utf8 b ≡ (leb 0x80 b && ltb b 0xc0)
unfolding trail_test
f_is_trail_byte_utf8_lem b h = split _ _ (all_below_sound 256 trail_test b trail_test_table h)
  where
    split : (x y : Bool) → (if x then y else not y) ≡ true → x ≡ y
    split true true e = refl
    split true false e = sym e
    split false true e = e
    split false false e = refl
