-- ===== src/Acl/RoundTrip.antt =====
-- Permissions written as text and read back.
use Prim.Native.Char.{Char, code}
use Prim.Native.String.{◌++◌}
use text.Mathlib.TextLemmas.{nil-append, cons-append, append-nil, append_assoc}
use formicary.Common.{
  String, ℕ, suc, ◌≡◌, ◌==◌, refl, sym, ◌∙◌, arith, Bool, true, false, ◌&&◌, not, some, str_eq,
  str_eq_iff, List, [], ◌∷◌, map, ℤ, pos, negsuc, split_at, trim_space, trim_left, trim_right,
  is_space, All, Bool-cases, inl, inr,
}
use formicary.Acl.Decimal.{
  first, itoa, itoa_nat, atoi-itoa, IsInt64, all_digits, digits-all_digits, is_digit,
}
use formicary.Acl.{
  Permission, show_permission, write_permissions, marshal_permissions, parse_line, parse_lines,
  unmarshal_permissions,
}

-- The text has no character of the code.
abbrev pub lacks : ℕ → String → Bool
lacks sep String.[] = true
lacks sep (String.◌∷◌ c s) = not (code c == sep) && lacks sep s

split_at-lacks : (sep : ℕ) (s : String) → lacks sep s ≡ true → split_at sep s ≡ s ∷ []
unfolding split_at
split_at-lacks sep String.[] h = refl
split_at-lacks sep (String.◌∷◌ c s) h =
    let other : (code c == sep) ≡ false = ground arith in
    let rest : lacks sep s ≡ true = ground arith in rw (other, split_at-lacks sep s rest) refl

-- The part before the first separator is split off.
split_at-append :
    (sep : ℕ) (a b : String) (parts : List String)
    → lacks sep a ≡ true
    → split_at sep b ≡ "" ∷ parts
    → split_at sep (a ++ b) ≡ a ∷ parts
unfolding split_at
split_at-append sep String.[] b parts h e = rw (nil-append b) e
split_at-append sep (String.◌∷◌ c a) b parts h e =
    let other : (code c == sep) ≡ false = ground arith in
    let rest : lacks sep a ≡ true = ground arith in
    rw (cons-append c a b, other, split_at-append sep a b parts rest e) refl

lacks-append : (sep : ℕ) (a b : String) → lacks sep (a ++ b) ≡ (lacks sep a && lacks sep b)
lacks-append sep String.[] b = rw (nil-append b) refl
lacks-append sep (String.◌∷◌ c a) b = rw (cons-append c a b) (ground (arith, lacks-append sep a b))

abbrev no_space : String → Bool
no_space String.[] = true
no_space (String.◌∷◌ c s) = not (is_space (code c)) && no_space s

trim_left-no_space : (s : String) → no_space s ≡ true → trim_left s ≡ s
unfolding trim_left
trim_left-no_space String.[] h = refl
trim_left-no_space (String.◌∷◌ c s) h =
    let solid : is_space (code c) ≡ false = ground arith in rw solid refl

trim_right-no_space : (s : String) → no_space s ≡ true → trim_right s ≡ s
unfolding trim_right
trim_right-no_space String.[] h = refl
trim_right-no_space (String.◌∷◌ c s) h =
    let solid : is_space (code c) ≡ false = ground arith in
    let rest : no_space s ≡ true = ground arith in
    rw (trim_right-no_space s rest, solid) (ground arith)

trim_space-no_space : (s : String) → no_space s ≡ true → trim_space s ≡ s
unfolding trim_space
trim_space-no_space s h = rw (trim_left-no_space s h) (trim_right-no_space s h)

all_digits-lacks :
    (sep : ℕ) (s : String) → is_digit sep ≡ false → all_digits s ≡ true → lacks sep s ≡ true
all_digits-lacks sep String.[] other h = refl
all_digits-lacks sep (String.◌∷◌ c s) other h =
    let rest : all_digits s ≡ true = ground arith in
    let more = all_digits-lacks sep s other rest in ground arith

all_digits-no_space : (s : String) → all_digits s ≡ true → no_space s ≡ true
unfolding is_space
all_digits-no_space String.[] h = refl
all_digits-no_space (String.◌∷◌ c s) h =
    let rest : all_digits s ≡ true = ground arith in
    let more = all_digits-no_space s rest in ground arith

itoa_nat-all_digits : (n : ℕ) → all_digits (itoa_nat n) ≡ true
unfolding itoa_nat
itoa_nat-all_digits n = digits-all_digits (suc n) n "" refl

itoa-lacks :
    (sep : ℕ) (z : ℤ) → is_digit sep ≡ false → (45 == sep) ≡ false → lacks sep (itoa z) ≡ true
unfolding itoa
itoa-lacks sep (pos n) other minus = all_digits-lacks sep (itoa_nat n) other (itoa_nat-all_digits n)
itoa-lacks sep (negsuc n) other minus =
    rw (minus, all_digits-lacks sep (itoa_nat (suc n)) other (itoa_nat-all_digits (suc n))) refl

itoa-no_space : (z : ℤ) → no_space (itoa z) ≡ true
unfolding itoa is_space
itoa-no_space (pos n) = all_digits-no_space (itoa_nat n) (itoa_nat-all_digits n)
itoa-no_space (negsuc n) = all_digits-no_space (itoa_nat (suc n)) (itoa_nat-all_digits (suc n))

-- A permission that its text can hold: no separators in its resource, and no space around it.
pub record IsPlain (p : Permission) : Type 0 where
  pub no_semicolon : lacks 59 p.resource ≡ true
  pub no_equals : lacks 61 p.resource ≡ true
  pub trimmed : trim_space p.resource ≡ p.resource
  pub fits : IsInt64 p.actions

equals-split : (s : String) → lacks 61 s ≡ true → split_at 61 ("=" ++ s) ≡ "" ∷ (s ∷ [])
unfolding split_at
equals-split s h = rw (cons-append (first "=") "" s, nil-append s, split_at-lacks 61 s h) refl

parse_line-show :
    (p : Permission) → IsPlain p → parse_line (split_at 61 (show_permission p)) ≡ some p
unfolding show_permission parse_line
parse_line-show p plain =
    let number = itoa-lacks 61 p.actions refl refl in
    let parts =
      split_at-append 61 p.resource ("=" ++ itoa p.actions) (itoa p.actions ∷ []) plain.no_equals
        (equals-split (itoa p.actions) number) in
    rw
      (
        parts,
        parse_line,
        trim_space-no_space (itoa p.actions) (itoa-no_space p.actions),
        atoi-itoa p.actions plain.fits,
        plain.trimmed,
      )
      refl

-- What `MarshalPermissions` writes after the first permission.
tail : List Permission → String
tail [] = ""
tail (p ∷ ps) = ";" ++ (show_permission p ++ tail ps)

cons-nonempty : (c : Char) (s : String) → str_eq (String.◌∷◌ c s) "" ≡ false
cons-nonempty c s = elim (Bool-cases (str_eq (String.◌∷◌ c s) "")) [
  | inl e ↦
      let same : String.◌∷◌ c s ≡ "" = (str_eq_iff (String.◌∷◌ c s) "").0 e in absurd (cc same)
  | inr e ↦ e
]

append-nonempty : (a b : String) → str_eq b "" ≡ false → str_eq (a ++ b) "" ≡ false
append-nonempty String.[] b h = rw (nil-append b) h
append-nonempty (String.◌∷◌ c a) b h = rw (cons-append c a b) (cons-nonempty c (a ++ b))

nonempty-append : (a b : String) → str_eq a "" ≡ false → str_eq (a ++ b) "" ≡ false
nonempty-append String.[] b h = absurd (cc h)
nonempty-append (String.◌∷◌ c a) b h = rw (cons-append c a b) (cons-nonempty c (a ++ b))

write_permissions-tail :
    (sb : String) (ps : List Permission)
    → str_eq sb "" ≡ false
    → write_permissions sb ps ≡ sb ++ tail ps
unfolding write_permissions tail
write_permissions-tail sb [] h = sym (append-nil sb)
write_permissions-tail sb (p ∷ ps) h =
    let longer = nonempty-append (sb ++ ";") (show_permission p) (nonempty-append sb ";" h) in
    rw (h) (
      write_permissions-tail ((sb ++ ";") ++ show_permission p) ps longer
      ∙ append_assoc (sb ++ ";") (show_permission p) (tail ps)
      ∙ append_assoc sb ";" (show_permission p ++ tail ps))

show_permission-lacks : (p : Permission) → IsPlain p → lacks 59 (show_permission p) ≡ true
unfolding show_permission
show_permission-lacks p plain =
    let number = itoa-lacks 59 p.actions refl refl in
    rw
      (
        lacks-append 59 p.resource ("=" ++ itoa p.actions),
        plain.no_semicolon,
        lacks-append 59 "=" (itoa p.actions),
        number,
      )
      refl

tail-split :
    (ps : List Permission) → All IsPlain ps → split_at 59 (tail ps) ≡ "" ∷ map show_permission ps
unfolding tail split_at
tail-split [] plain = refl
tail-split (p ∷ ps) (plain, more) =
    rw
      (
        cons-append (first ";") "" (show_permission p ++ tail ps),
        nil-append (show_permission p ++ tail ps),
        split_at-append 59 (show_permission p) (tail ps) (map show_permission ps)
            (show_permission-lacks p plain) (tail-split ps more),
      )
      refl

parse_lines-show :
    (ps : List Permission) → All IsPlain ps → parse_lines (map show_permission ps) ≡ ps
unfolding parse_lines
parse_lines-show [] plain = refl
parse_lines-show (p ∷ ps) (plain, more) =
    rw (parse_lines, parse_line-show p plain, parse_lines-show ps more) refl

show_permission-nonempty : (p : Permission) → str_eq (show_permission p) "" ≡ false
unfolding show_permission
show_permission-nonempty p =
    append-nonempty p.resource ("=" ++ itoa p.actions) (nonempty-append "=" (itoa p.actions) refl)

marshal_permissions-cons :
    (p : Permission) (ps : List Permission)
    → marshal_permissions (p ∷ ps) ≡ show_permission p ++ tail ps
unfolding marshal_permissions write_permissions
marshal_permissions-cons p ps =
    rw (nil-append (show_permission p))
      (write_permissions-tail (show_permission p) ps (show_permission-nonempty p))

-- Permissions are read back from their text, in their order, when no resource has a separator in its
-- name or space around it, and the actions are integers of 64 bits.
pub unmarshal_permissions-marshal_permissions :
    (ps : List Permission) → All IsPlain ps → unmarshal_permissions (marshal_permissions ps) ≡ ps
unfolding unmarshal_permissions marshal_permissions
unmarshal_permissions-marshal_permissions [] plain = refl
unmarshal_permissions-marshal_permissions (p ∷ ps) (plain, more) =
    let written : marshal_permissions (p ∷ ps) ≡ show_permission p ++ tail ps =
      marshal_permissions-cons p ps in
    let filled = nonempty-append (show_permission p) (tail ps) (show_permission-nonempty p) in
    let lines =
      split_at-append 59 (show_permission p) (tail ps) (map show_permission ps)
        (show_permission-lacks p plain) (tail-split ps more) in
    rw (unmarshal_permissions, written, filled, lines) (parse_lines-show (p ∷ ps) (plain, more))
