-- ===== src/Utils/Rolling.antt =====
-- internal/math/rolling_average.go and rolling_min_max.go: the average of the last samples, in a ring
-- of a fixed capacity, with the least and the greatest sample ever. A sample is an int64, where one
-- that is not positive is 0 here; the total is kept as its 64 bits, so it wraps around as in the
-- source.
-- A ring of capacity 0 panics at the first sample, here it holds a sample 0.
pub mod Window
use formicary.Common.{
  ℤ, pos, negsuc, ◌%◌, ℕ, zero, suc, ◌+◌, ◌-◌, ◌==◌, Bool, List, [], ◌∷◌, length, ltb, leb,
  if◌then◌else◌,
}

pub record RollingAverage : Type 0 where
  pub samples : List ℕ
  pub total : ℕ
  pub index : ℕ
  pub length_of : ℕ

unfoldable pub zeros : ℕ → List ℕ
zeros zero = []
zeros (suc n) = 0 ∷ zeros n

-- The number of values of 64 bits, and the signed number that 64 bits stand for.
abbrev pub int64_size : ℕ
int64_size = 18446744073709551616

unfoldable pub to_int64 : ℕ → ℤ
to_int64 bits = if ltb bits 9223372036854775808 then pos bits else negsuc (int64_size - 1 - bits)

-- `NewRollingAverage`
unfoldable pub new_rolling_average : ℕ → RollingAverage
unfolding zeros
new_rolling_average capacity = record {
  samples = zeros capacity;
  total = 0;
  index = 0;
  length_of = 0;
}

-- `samples[i]` and its assignment.
unfoldable pub sample_at : ℕ → List ℕ → ℕ
sample_at i [] = 0
sample_at zero (x ∷ xs) = x
sample_at (suc i) (x ∷ xs) = sample_at i xs

unfoldable pub set_sample : ℕ → ℕ → List ℕ → List ℕ
set_sample i y [] = []
set_sample zero y (x ∷ xs) = y ∷ xs
set_sample (suc i) y (x ∷ xs) = x ∷ set_sample i y xs

-- `atomic.AddInt64` of the negated old sample, then of the new one.
abbrev pub replace_in : ℕ → ℕ → ℕ → ℕ
replace_in total old new = (total + (int64_size - old % int64_size) + new) % int64_size

-- `Add` of the average, which skips a sample that is not positive.
unfoldable pub add_sample : ℕ → RollingAverage → RollingAverage
unfolding sample_at set_sample
add_sample x r =
    let capacity = length r.samples in
    if x == 0 then r else record {
      samples = set_sample r.index x r.samples;
      total = replace_in r.total (sample_at r.index r.samples) x;
      index = if leb capacity (r.index + 1) then 0 else r.index + 1;
      length_of = if ltb r.length_of capacity then r.length_of + 1 else r.length_of;
    }

-- `Average`, as its numerator and its denominator.
unfoldable pub average : RollingAverage → ℤ × ℕ
unfolding to_int64
average r =
    let capacity = length r.samples in
    let size = if leb capacity r.length_of then capacity else r.length_of in
    (to_int64 r.total, if leb size 1 then 1 else size)

pub record RollingMinMax : Type 0 where
  pub rolling : RollingAverage
  pub min_sample : ℕ
  pub max_sample : ℕ

-- `NewRollingMinMax`, with the greatest number of 64 bits as the least sample so far.
unfoldable pub new_rolling_min_max : ℕ → RollingMinMax
unfolding new_rolling_average
new_rolling_min_max capacity = record {
  rolling = new_rolling_average capacity;
  min_sample = 9223372036854775807;
  max_sample = 0;
}

-- `Add`
unfoldable pub add_min_max : ℕ → RollingMinMax → RollingMinMax
unfolding add_sample
add_min_max x r = record {
  rolling = add_sample x r.rolling;
  min_sample = if leb r.min_sample x then r.min_sample else x;
  max_sample = if leb x r.max_sample then r.max_sample else x;
}

-- The samples one after another.
unfoldable pub add_samples : List ℕ → RollingAverage → RollingAverage
unfolding add_sample
add_samples [] r = r
add_samples (x ∷ xs) r = add_samples xs (add_sample x r)
