-- ===== src/Tests/Storage.antt =====
-- The theorems on bit sets, at concrete ones.
use onejit.Base.{
  ℕ, ◌+◌, ◌*◌, ◌/◌, ◌%◌, ◌<◌, ◌≤◌, true, false, ltb, leb, ◌==◌, ◌&&◌, if◌then◌else◌, arith, ◌≡◌,
  refl, inl, ◌∙◌,
}
use onejit.Libc.{IsLowest, fallback_find_first_set}
use onejit.Libc.Fallback.{fallback-IsLowest, sample_libc}
use onejit.Word.Bit.{testbit-complement, testbit_above}
use onejit.BitSet
use onejit.BitSet.{BitSet, no_pos}
use onejit.BitSet.Stored.{stored}
use onejit.BitSet.Fill.{stored-fill, stored-set, in_range, end_of}
use onejit.BitSet.Find.{Found, find-Found, find-false_skips}
use onejit.BitSet.Resize.{Resized, resize-Resized, resize_granted, resize_denied}
use onejit.Tests.Samples.{hundred, hundred-IsValid}

stored-fill_example :
    stored (BitSet.fill hundred true 10 90).words 70
    ≡ (if in_range 10 (end_of hundred 90) 70 then true else stored hundred.words 70)
stored-fill_example = stored-fill hundred true 10 90 70 hundred-IsValid

stored-set_example :
    stored (BitSet.set hundred 70 true).words 70
    ≡ (if ltb 70 hundred.size && (70 == 70) then true else stored hundred.words 70)
stored-set_example = stored-set hundred 70 true 70 hundred-IsValid

find-Found_example :
    Found hundred.words true 65
      (if ltb hundred.size 1000 then hundred.size else 1000)
      (BitSet.find sample_libc hundred true 65 1000)
find-Found_example = find-Found sample_libc hundred true 65 1000 hundred-IsValid (inl refl)

-- The bits from 3 to 63 of the first word are set.
high_bits : (i : ℕ) → 3 ≤ i → i < 64 → stored hundred.words i ≡ true
high_bits i from to =
    let w0 : i / 64 ≡ 0 = omega arith in
    let k0 : i % 64 ≡ i = omega arith in
    let seven : ℕ = 7 in
    let clear = testbit_above 3 seven i (omega arith) from in
    rw (w0, k0) (testbit-complement 64 seven i (omega arith) ∙ ground arith)

find-false_skips_example : BitSet.find sample_libc hundred false 3 no_pos ≡ 64 + 3 / 64 * 64
find-false_skips_example =
    find-false_skips sample_libc hundred 3 no_pos hundred-IsValid (omega arith) (omega arith)
      high_bits

resize-Resized_example : Resized hundred 500 (BitSet.resize true hundred 500).0
resize-Resized_example =
    resize-Resized true hundred 500 hundred-IsValid (omega arith) (omega arith)
      (resize_granted hundred 500 hundred-IsValid (omega arith) (omega arith))

resize_denied_example :
    ((BitSet.resize false hundred 500).1 ≡ leb 500 hundred.cap)
    × ((BitSet.resize false hundred 500).1 ≡ false → (BitSet.resize false hundred 500).0 ≡ hundred)
resize_denied_example = resize_denied hundred 500 hundred-IsValid (omega arith) (omega arith)

fallback-IsLowest_example : IsLowest 40 (fallback_find_first_set 40 + 1)
fallback-IsLowest_example = fallback-IsLowest 40 (omega arith) (omega arith)
