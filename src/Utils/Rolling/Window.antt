-- ===== src/Utils/Rolling/Window.antt =====
-- The ring as a window over the samples.
use formicary.Common.{
  true, ◌<◌, ◌%◌, ℤ, pos, ℕ, zero, suc, ◌+◌, ◌≤◌, ◌≡◌, ◌==◌, refl, sym, ap, ap₂, ◌∙◌, subst, arith,
  false, List, [], ◌∷◌, ◌++◌, All, length, length-append, ltb, leb, if◌then◌else◌,
}
use mathlib.Core.List.{append_assoc, append-nil}
use formicary.Utils.Rolling.{
  int64_size, to_int64, replace_in, RollingAverage, zeros, new_rolling_average, sample_at,
  set_sample, add_sample, add_samples, average,
}

abbrev pub sum : List ℕ → ℕ
sum [] = 0
sum (x ∷ xs) = x + sum xs

-- The list without its first elements.
abbrev pub drop : ℕ → List ℕ → List ℕ
drop zero xs = xs
drop (suc n) [] = []
drop (suc n) (x ∷ xs) = drop n xs

-- The window as the ring holds it, oldest sample first: its head is at the index.
record Holds (r : RollingAverage) (window : List ℕ) : Type 0 where
  before : List ℕ
  oldest : ℕ
  after : List ℕ
  ring : r.samples ≡ before ++ oldest ∷ after
  at_index : r.index ≡ length before
  order : window ≡ (oldest ∷ after) ++ before
  adds_up : r.total ≡ sum window % int64_size

sum-append : (xs ys : List ℕ) → sum (xs ++ ys) ≡ sum xs + sum ys
sum-append [] ys = omega arith
sum-append (x ∷ xs) ys = omega (arith, sum-append xs ys)

sample_at-append : (xs : List ℕ) (y : ℕ) (ys : List ℕ) → sample_at (length xs) (xs ++ y ∷ ys) ≡ y
unfolding sample_at
sample_at-append [] y ys = refl
sample_at-append (x ∷ xs) y ys = sample_at-append xs y ys

set_sample-append :
    (xs : List ℕ) (y z : ℕ) (ys : List ℕ) → set_sample (length xs) z (xs ++ y ∷ ys) ≡ xs ++ z ∷ ys
unfolding set_sample
set_sample-append [] y z ys = refl
set_sample-append (x ∷ xs) y z ys = ap (λ l. x ∷ l) (set_sample-append xs y z ys)

-- Taking the old sample out and the new one in, modulo the values of 64 bits.
replaced :
    (total at old rest x after : ℕ)
    → at ≡ old
    → total ≡ (old + rest) % int64_size
    → after ≡ rest + x
    → replace_in total at x ≡ after % int64_size
replaced total at old rest x after e f g = omega (arith, e, f, g)

-- A positive sample moves the window on by one.
add_sample-Holds :
    (x : ℕ) (r : RollingAverage) (window : List ℕ)
    → (x == 0) ≡ false
    → Holds r window
    → Holds (add_sample x r) (drop 1 window ++ x ∷ [])
unfolding add_sample
add_sample-Holds x r window positive h =
    subst (λ w. Holds (add_sample x r) (drop 1 w ++ x ∷ [])) (sym h.order)
      (rw (add_sample, positive)
        (by_after h.before h.oldest h.after h.ring h.at_index
          (h.adds_up ∙ ap (λ w. sum w % int64_size) h.order)))
  where
    next : RollingAverage
    next = record {
      samples = set_sample r.index x r.samples;
      total = replace_in r.total (sample_at r.index r.samples) x;
      index = if leb (length r.samples) (r.index + 1) then 0 else r.index + 1;
      length_of = if ltb r.length_of (length r.samples) then r.length_of + 1 else r.length_of;
    }

    set_next :
        (before : List ℕ) (oldest : ℕ) (after : List ℕ)
        → r.samples ≡ before ++ oldest ∷ after
        → r.index ≡ length before
        → next.samples ≡ before ++ x ∷ after
    set_next before oldest after ring at_index =
        ap (λ i. set_sample i x r.samples) at_index
        ∙ ap (set_sample (length before) x) ring
        ∙ set_sample-append before oldest x after

    total_next :
        (before : List ℕ) (oldest : ℕ) (after : List ℕ)
        → r.samples ≡ before ++ oldest ∷ after
        → r.index ≡ length before
        → r.total ≡ sum ((oldest ∷ after) ++ before) % int64_size
        → next.total ≡ sum ((after ++ before) ++ x ∷ []) % int64_size
    total_next before oldest after ring at_index total =
        let old =
          ap (λ i. sample_at i r.samples) at_index
          ∙ ap (sample_at (length before)) ring
          ∙ sample_at-append before oldest after in
        replaced r.total (sample_at r.index r.samples) oldest (sum (after ++ before)) x
          (sum ((after ++ before) ++ x ∷ [])) old total
          (omega (arith, sum-append (after ++ before) (x ∷ [])))

    capacity :
        (before : List ℕ) (oldest : ℕ) (after : List ℕ)
        → r.samples ≡ before ++ oldest ∷ after
        → length r.samples ≡ length before + suc (length after)
    capacity before oldest after ring = ap length ring ∙ length-append before (oldest ∷ after)

    wrapped : (size i n : ℕ) → size ≡ n + 1 → i ≡ n → (if leb size (i + 1) then 0 else i + 1) ≡ 0
    wrapped size i n e f = ground arith

    moved :
        (size i n m : ℕ)
        → size ≡ n + suc (suc m)
        → i ≡ n
        → (if leb size (i + 1) then 0 else i + 1) ≡ n + 1
    moved size i n m e f = ground arith

    by_after :
        (before : List ℕ) (oldest : ℕ) (after : List ℕ)
        → r.samples ≡ before ++ oldest ∷ after
        → r.index ≡ length before
        → r.total ≡ sum ((oldest ∷ after) ++ before) % int64_size
        → Holds next ((after ++ before) ++ x ∷ [])
    by_after [] oldest [] ring at_index total = record {
      before = [];
      oldest = x;
      after = [];
      ring = set_next [] oldest [] ring at_index;
      at_index = wrapped (length r.samples) r.index 0 (capacity [] oldest [] ring) at_index;
      order = refl;
      adds_up = total_next [] oldest [] ring at_index total;
    }
    by_after (b ∷ before) oldest [] ring at_index total = record {
      before = [];
      oldest = b;
      after = before ++ x ∷ [];
      ring = set_next (b ∷ before) oldest [] ring at_index;
      at_index =
          wrapped (length r.samples) r.index (length (b ∷ before))
            (capacity (b ∷ before) oldest [] ring) at_index;
      order = sym (append-nil ((b ∷ before) ++ x ∷ []));
      adds_up = total_next (b ∷ before) oldest [] ring at_index total;
    }
    by_after before oldest (a ∷ after) ring at_index total = record {
      before = before ++ x ∷ [];
      oldest = a;
      after = after;
      ring =
          set_next before oldest (a ∷ after) ring at_index
          ∙ sym (append_assoc before (x ∷ []) (a ∷ after));
      at_index =
          moved (length r.samples) r.index (length before) (length after)
            (capacity before oldest (a ∷ after) ring) at_index
          ∙ sym (length-append before (x ∷ []));
      order = append_assoc (a ∷ after) before (x ∷ []);
      adds_up = total_next before oldest (a ∷ after) ring at_index total;
    }

-- The window after some samples: the last ones of the zeros and the samples.
add_samples-Holds :
    (xs : List ℕ) (r : RollingAverage) (window : List ℕ)
    → All (λ x. (x == 0) ≡ false) xs
    → Holds r window
    → Holds (add_samples xs r) (drop (length xs) (window ++ xs))
unfolding add_samples
add_samples-Holds [] r window positive h = subst (Holds r) (sym (append-nil window)) h
add_samples-Holds (x ∷ xs) r window (p, positive) h =
    subst (Holds (add_samples xs (add_sample x r))) (next_window window h.order)
      (add_samples-Holds xs (add_sample x r) _ positive (add_sample-Holds x r window p h))
  where
    next_window :
        (w : List ℕ)
        → w ≡ (h.oldest ∷ h.after) ++ h.before
        → drop (length xs) ((drop 1 w ++ x ∷ []) ++ xs) ≡ drop (length (x ∷ xs)) (w ++ x ∷ xs)
    next_window [] e = absurd (cc e)
    next_window (o ∷ w) e = ap (drop (length xs)) (append_assoc w (x ∷ []) xs)

length-set_sample : (i y : ℕ) (xs : List ℕ) → length (set_sample i y xs) ≡ length xs
unfolding set_sample
length-set_sample i y [] = refl
length-set_sample zero y (x ∷ xs) = refl
length-set_sample (suc i) y (x ∷ xs) = ap suc (length-set_sample i y xs)

length-zeros : (n : ℕ) → length (zeros n) ≡ n
unfolding zeros
length-zeros zero = refl
length-zeros (suc n) = ap suc (length-zeros n)

sum-zeros : (n : ℕ) → sum (zeros n) ≡ 0
unfolding zeros
sum-zeros zero = refl
sum-zeros (suc n) = omega (arith, sum-zeros n)

-- The number of samples in the ring, which is full at its capacity.
abbrev filled : ℕ → ℕ → ℕ
filled capacity n = if leb capacity n then capacity else n

-- The capacity stays, and the samples are counted up to it.
add_samples-filled :
    (capacity : ℕ) (xs : List ℕ) (r : RollingAverage)
    → All (λ x. (x == 0) ≡ false) xs
    → length r.samples ≡ capacity
    → r.length_of ≤ capacity
    → (length (add_samples xs r).samples ≡ capacity)
      × ((add_samples xs r).length_of ≡ filled capacity (r.length_of + length xs))
unfolding add_samples
add_samples-filled capacity [] r positive size le = (size, full capacity r.length_of le)
  where
    full : (c n : ℕ) → n ≤ c → n ≡ filled c (n + 0)
    full c n h = ground arith
add_samples-filled capacity (x ∷ xs) r (p, positive) size le =
    let counted : (add_sample x r).length_of
        ≡ (if ltb r.length_of (length r.samples) then r.length_of + 1 else r.length_of) =
      rw (add_sample, p) refl in
    let kept : length (add_sample x r).samples ≡ length r.samples =
      rw (add_sample, p) (length-set_sample r.index x r.samples) in
    let (size', total) =
      add_samples-filled capacity xs (add_sample x r) positive (kept ∙ size)
        (bounded capacity (length r.samples) r.length_of _ size le counted) in
    (size', total ∙ step capacity (length r.samples) r.length_of _ (length xs) size le counted)
  where
    bounded : (c s n m : ℕ) → s ≡ c → n ≤ c → m ≡ (if ltb n s then n + 1 else n) → m ≤ c
    bounded c s n m e le f = ground arith

    step :
        (c s n m k : ℕ)
        → s ≡ c
        → n ≤ c
        → m ≡ (if ltb n s then n + 1 else n)
        → filled c (m + k) ≡ filled c (n + suc k)
    step c s n m k e le f = ground arith

-- After any positive samples, if those in the window add up to less than 2^63, the average of a ring
-- of a positive capacity has as its numerator the sum of the last samples, as many as the capacity,
-- where missing ones count as zeros, and as its denominator the number of the samples, but at most
-- the capacity, and 1 when there are none.
pub average-window :
    (n : ℕ) (xs : List ℕ)
    → All (λ x. (x == 0) ≡ false) xs
    → sum (drop (length xs) (zeros (suc n) ++ xs)) < 9223372036854775808
    → let size = if leb (suc n) (length xs) then suc n else length xs in
      average (add_samples xs (new_rolling_average (suc n)))
      ≡ (pos (sum (drop (length xs) (zeros (suc n) ++ xs))), (if leb size 1 then 1 else size))
unfolding average new_rolling_average zeros to_int64
average-window n xs positive fits =
    let start = new_rolling_average (suc n) in
    let held = add_samples-Holds xs start (zeros (suc n)) positive (zeros-Holds n) in
    let (size, count) =
      add_samples-filled (suc n) xs start positive (length-zeros (suc n)) (none_yet n) in
    ap₂ {A = ℤ} {B = ℕ} (λ t d. (t, d))
      (signed (add_samples xs start).total (sum (drop (length xs) (zeros (suc n) ++ xs)))
        held.adds_up fits)
      (same_size (length (add_samples xs start).samples) (add_samples xs start).length_of
        (length xs) n size count)
  where
    none_yet : (n : ℕ) → 0 ≤ suc n
    none_yet n = omega arith

    signed : (bits s : ℕ) → bits ≡ s % int64_size → s < 9223372036854775808 → to_int64 bits ≡ pos s
    signed bits s e h =
        let same : bits ≡ s = omega (arith, e, h) in
        let small : ltb s 9223372036854775808 ≡ true = ground (arith, h) in rw (same, small) refl

    zeros-Holds : (n : ℕ) → Holds (new_rolling_average (suc n)) (zeros (suc n))
    zeros-Holds n = record {
      before = [];
      oldest = 0;
      after = zeros n;
      ring = refl;
      at_index = refl;
      order = sym (append-nil (0 ∷ zeros n));
      adds_up = sym (ap (λ k. k % int64_size) (sum-zeros (suc n)));
    }

    same_size :
        (c l k n : ℕ)
        → c ≡ suc n
        → l ≡ filled (suc n) (0 + k)
        → (if leb (if leb c l then c else l) 1 then 1 else (if leb c l then c else l))
          ≡ (if leb (filled (suc n) k) 1 then 1 else filled (suc n) k)
    same_size c l k n e f = ground arith
