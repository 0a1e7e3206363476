-- ===== src/Acl/Decimal.antt =====
-- What the program uses of Go's `strconv` package: `Itoa` and `Atoi`, over 64-bit integers.
use Prim.Native.Nat.{ℕ, zero, suc, ◌+◌, ◌-◌, ◌*◌, ◌/◌, ◌%◌, ◌≤◌, ◌<◌}
use Prim.Native.Char.{Char, code, nul}
use Prim.Native.String.{String}
use mathlib.Core.Path.{◌≡◌, refl}
use mathlib.Core.Bool.{Bool, true, false, ◌&&◌}
use mathlib.Core.Option.{Option, none, some}
use native.Mathlib.Omega.{arith}
use formicary.Common.{
  ◌==◌, leb, ltb, if◌then◌else◌, ℤ, pos, negsuc, Bool-cases, ltb→lt, inl, inr, ap, ◌∙◌,
}

abbrev pub first : String → Char
first String.[] = nul
first (String.◌∷◌ c s) = c

-- The digit, and 9 from 9 on.
unfoldable pub digit : ℕ → Char
digit zero = first "0"
digit (suc zero) = first "1"
digit (suc (suc zero)) = first "2"
digit (suc (suc (suc zero))) = first "3"
digit (suc (suc (suc (suc zero)))) = first "4"
digit (suc (suc (suc (suc (suc zero))))) = first "5"
digit (suc (suc (suc (suc (suc (suc zero)))))) = first "6"
digit (suc (suc (suc (suc (suc (suc (suc zero))))))) = first "7"
digit (suc (suc (suc (suc (suc (suc (suc (suc zero)))))))) = first "8"
digit (suc (suc (suc (suc (suc (suc (suc (suc (suc n))))))))) = first "9"

-- The digits of `n` before `out`; the fuel is more than `n`.
unfoldable pub digits : ℕ → ℕ → String → String
unfolding digit
digits zero n out = out
digits (suc fuel) n out =
    let rest = digits fuel (n / 10) (String.◌∷◌ (digit (n % 10)) out) in
    if ltb n 10 then String.◌∷◌ (digit n) out else rest

unfoldable pub itoa_nat : ℕ → String
unfolding digits
itoa_nat n = digits (suc n) n ""

unfoldable pub itoa : ℤ → String
unfolding itoa_nat
itoa (pos n) = itoa_nat n
itoa (negsuc n) = String.◌∷◌ (first "-") (itoa_nat (suc n))

abbrev pub is_digit : ℕ → Bool
is_digit c = leb 48 c && leb c 57

-- The number that the digits spell behind `n`.
unfoldable pub read : String → ℕ → Option ℕ
read String.[] n = some n
read (String.◌∷◌ c s) n =
    let rest = read s (n * 10 + (code c - 48)) in if is_digit (code c) then rest else none

unfoldable pub read_digits : String → Option ℕ
unfolding read
read_digits String.[] = none
read_digits (String.◌∷◌ c s) = read (String.◌∷◌ c s) 0

abbrev max_int : ℕ
max_int = 9223372036854775807

abbrev pub positive : Option ℕ → Option ℤ
positive none = none
positive (some n) = if leb n max_int then some (pos n) else none

abbrev pub negative : Option ℕ → Option ℤ
negative none = none
negative (some zero) = some (pos zero)
negative (some (suc n)) = if leb n max_int then some (negsuc n) else none

unfoldable pub atoi : String → Option ℤ
unfolding read_digits
atoi String.[] = none
atoi (String.◌∷◌ c s) =
    if code c == 45
    then negative (read_digits s)
    else if code c == 43
    then positive (read_digits s)
    else positive (read_digits (String.◌∷◌ c s))

-- The integers of 64 bits.
abbrev pub IsInt64 : ℤ → Type 0
IsInt64 (pos n) = n ≤ max_int
IsInt64 (negsuc n) = n ≤ max_int

read-digit :
    (d : ℕ) (s : String) (n : ℕ) → d < 10 → read (String.◌∷◌ (digit d) s) n ≡ read s (n * 10 + d)
unfolding read digit
read-digit zero s n lt = ground arith
read-digit (suc zero) s n lt = ground arith
read-digit (suc (suc zero)) s n lt = ground arith
read-digit (suc (suc (suc zero))) s n lt = ground arith
read-digit (suc (suc (suc (suc zero)))) s n lt = ground arith
read-digit (suc (suc (suc (suc (suc zero))))) s n lt = ground arith
read-digit (suc (suc (suc (suc (suc (suc zero)))))) s n lt = ground arith
read-digit (suc (suc (suc (suc (suc (suc (suc zero))))))) s n lt = ground arith
read-digit (suc (suc (suc (suc (suc (suc (suc (suc zero)))))))) s n lt = ground arith
read-digit (suc (suc (suc (suc (suc (suc (suc (suc (suc zero))))))))) s n lt = ground arith
read-digit (suc (suc (suc (suc (suc (suc (suc (suc (suc (suc m)))))))))) s n lt =
    absurd (omega arith)

read-nil : (n : ℕ) → read "" n ≡ some n
unfolding read
read-nil n = refl

-- What the text spells before `out` is read first.
read-digits : (fuel n : ℕ) (out : String) → n < fuel → read (digits fuel n out) 0 ≡ read out n
unfolding digits
read-digits zero n out enough = absurd (omega arith)
read-digits (suc fuel) n out enough = elim (Bool-cases (ltb n 10)) [
  | inl small ↦ rw small (read-digit n out 0 (ltb→lt n 10 small) ∙ ap (read out) (omega arith))
  | inr big ↦
      let least : 10 ≤ n = ground arith in
      rw big (
        read-digits fuel (n / 10) (String.◌∷◌ (digit (n % 10)) out) (omega arith)
        ∙ read-digit (n % 10) out (n / 10) (omega arith)
        ∙ ap (read out) (omega arith))
]

digit-is_digit : (d : ℕ) → is_digit (code (digit d)) ≡ true
unfolding digit
digit-is_digit zero = refl
digit-is_digit (suc zero) = refl
digit-is_digit (suc (suc zero)) = refl
digit-is_digit (suc (suc (suc zero))) = refl
digit-is_digit (suc (suc (suc (suc zero)))) = refl
digit-is_digit (suc (suc (suc (suc (suc zero))))) = refl
digit-is_digit (suc (suc (suc (suc (suc (suc zero)))))) = refl
digit-is_digit (suc (suc (suc (suc (suc (suc (suc zero))))))) = refl
digit-is_digit (suc (suc (suc (suc (suc (suc (suc (suc zero)))))))) = refl
digit-is_digit (suc (suc (suc (suc (suc (suc (suc (suc (suc n))))))))) = refl

-- The text begins with a digit.
abbrev pub leads : String → Bool
leads String.[] = false
leads (String.◌∷◌ c s) = is_digit (code c)

digits-leads : (fuel n : ℕ) (out : String) → n < fuel → leads (digits fuel n out) ≡ true
unfolding digits
digits-leads zero n out enough = absurd (omega arith)
digits-leads (suc fuel) n out enough = elim (Bool-cases (ltb n 10)) [
  | inl small ↦ rw small (digit-is_digit n)
  | inr big ↦
      let least : 10 ≤ n = ground arith in
      rw big (digits-leads fuel (n / 10) (String.◌∷◌ (digit (n % 10)) out) (omega arith))
]

abbrev pub all_digits : String → Bool
all_digits String.[] = true
all_digits (String.◌∷◌ c s) = is_digit (code c) && all_digits s

pub digits-all_digits :
    (fuel n : ℕ) (out : String) → all_digits out ≡ true → all_digits (digits fuel n out) ≡ true
unfolding digits
digits-all_digits zero n out h = h
digits-all_digits (suc fuel) n out h = elim (Bool-cases (ltb n 10)) [
  | inl small ↦ rw (small, digit-is_digit n) h
  | inr big ↦ rw big (
      digits-all_digits fuel (n / 10) (String.◌∷◌ (digit (n % 10)) out)
        (rw (digit-is_digit (n % 10)) h))
]

leads-read_digits : (s : String) → leads s ≡ true → read_digits s ≡ read s 0
unfolding read_digits
leads-read_digits String.[] h = absurd (cc h)
leads-read_digits (String.◌∷◌ c s) h = refl

read_digits-itoa_nat : (n : ℕ) → read_digits (itoa_nat n) ≡ some n
unfolding itoa_nat
read_digits-itoa_nat n =
    leads-read_digits (digits (suc n) n "") (digits-leads (suc n) n "" (omega arith))
    ∙ read-digits (suc n) n "" (omega arith)
    ∙ read-nil n

leads-atoi : (s : String) → leads s ≡ true → atoi s ≡ positive (read_digits s)
unfolding atoi
leads-atoi String.[] h = absurd (cc h)
leads-atoi (String.◌∷◌ c s) h =
    let no_minus : (code c == 45) ≡ false = ground arith in
    let no_plus : (code c == 43) ≡ false = ground arith in rw (no_minus, no_plus) refl

-- Every integer of 64 bits is read back from its decimal text.
pub atoi-itoa : (z : ℤ) → IsInt64 z → atoi (itoa z) ≡ some z
unfolding itoa atoi
atoi-itoa (pos n) fits =
    let within : leb n max_int ≡ true = ground arith in
    leads-atoi (itoa_nat n) (unfold itoa_nat in (digits-leads (suc n) n "" (omega arith)))
    ∙ rw (read_digits-itoa_nat n, within) refl
atoi-itoa (negsuc n) fits =
    let within : leb n max_int ≡ true = ground arith in
    rw (read_digits-itoa_nat (suc n), within) refl
