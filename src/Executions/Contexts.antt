-- ===== src/Executions/Contexts.antt =====
-- queen/types/task_execution.go: the variables that a task execution collects. They are kept as a
-- list, which is stored, and as a table by name, which is looked up. An entry has its name, the Go type
-- and the text of its value; its id and that of the execution are left out.
use formicary.Common.{
  sym, subst, ◌∙◌, String, ◌≡◌, inl, inr, refl, ap, Bool, true, false, arith, List, [], ◌∷◌, ◌++◌,
  Option, none, some, Map, get, put, del, get-put, get-del, is_some, str_eq, str_eq_iff,
  if◌then◌else◌, ◌||◌, Bool-cases,
}

-- What `NewTaskExecutionContext` makes of a value: its Go type and its text.
pub record Context : Type 0 where
  pub kind : String
  pub value : String

abbrev pub text_context : String → Context
text_context value = record { kind = "string"; value = value }

pub record Contexts : Type 0 where
  pub entries : List (String × Context)
  pub lookup : Map Context

-- The loop of `AddContext` over the entries with the name: their kind stays.
unfoldable pub set_value : String → Context → List (String × Context) → List (String × Context)
set_value name x [] = []
set_value name x ((n, c) ∷ rest) =
    let later = set_value name x rest in
    (n, if str_eq n name then record c { value = x.value } else c) ∷ later

-- `AddContext`, of a value that is neither nil nor too long.
unfoldable pub add_context : String → Context → Contexts → Contexts
unfolding get put set_value
add_context name x c = record c {
  entries =
      if is_some (get name c.lookup)
      then set_value name x c.entries
      else c.entries ++ ((name, x) ∷ []);
  lookup = put name x c.lookup;
}

-- The loop of `DeleteContext`: the list without the first entry with the name, and that entry.
unfoldable pub cut_first :
    String → List (String × Context) → Option (String × Context) × List (String × Context)
cut_first name [] = (none, [])
cut_first name ((n, v) ∷ rest) =
    let (found, later) = cut_first name rest in
    if str_eq n name then (some (n, v), rest) else (found, (n, v) ∷ later)

-- `DeleteContext`
unfoldable pub delete_context : String → Contexts → Option (String × Context) × Contexts
unfolding get del cut_first
delete_context name c =
    let (found, left) = cut_first name c.entries in
    if is_some (get name c.lookup)
    then (found, record c { entries = left; lookup = del name c.lookup })
    else (none, c)

-- The text of the value, without its Go type.
abbrev pub value_in : Option Context → Option String
value_in none = none
value_in (some c) = some c.value

abbrev has_name : String → List (String × Context) → Bool
has_name name [] = false
has_name name ((n, v) ∷ rest) = str_eq n name || has_name name rest

-- No name stands twice in the list.
abbrev pub Distinct : List (String × Context) → Type 0
Distinct [] = Unit
Distinct ((n, v) ∷ rest) = (has_name n rest ≡ false) × Distinct rest

-- The list and the table hold the same texts, and the list has each name once.
abbrev pub IsValid : Contexts → Type 0
IsValid c =
    Distinct c.entries × ((n : String) → value_in (get n c.entries) ≡ value_in (get n c.lookup))

has_name-get : (n : String) (c : List (String × Context)) → has_name n c ≡ is_some (get n c)
unfolding get
has_name-get n [] = refl
has_name-get n ((m, v) ∷ rest) = ground (arith, has_name-get n rest)

has_name-set_value :
    (m name : String) (x : Context) (c : List (String × Context))
    → has_name m (set_value name x c) ≡ has_name m c
unfolding set_value
has_name-set_value m name x [] = refl
has_name-set_value m name x ((n, v) ∷ rest) =
    ap (λ b. str_eq n m || b) (has_name-set_value m name x rest)

set_value-Distinct :
    (name : String) (x : Context) (c : List (String × Context))
    → Distinct c
    → Distinct (set_value name x c)
unfolding set_value
set_value-Distinct name x [] d = tt
set_value-Distinct name x ((n, v) ∷ rest) (fresh, d) =
    (rw (has_name-set_value n name x rest) fresh, set_value-Distinct name x rest d)

-- An entry that `AddContext` finds: it has the text of the new value and its own kind.
abbrev pub renewed : Context → Option Context → Option Context
renewed x none = none
renewed x (some c) = some (record c { value = x.value })

get-set_value :
    (m name : String) (x : Context) (c : List (String × Context))
    → get m (set_value name x c) ≡ (if str_eq name m then renewed x (get m c) else get m c)
unfolding get set_value
get-set_value m name x [] = elim (Bool-cases (str_eq name m)) [
  | inl same ↦ rw (same) refl
  | inr differs ↦ rw (differs) refl
]
get-set_value m name x ((n, v) ∷ rest) = elim (Bool-cases (str_eq n m)) [
  | inr other ↦ rw (other) (get-set_value m name x rest)
  | inl here ↦ elim (Bool-cases (str_eq name m)) [
    | inl same ↦
        let also : str_eq n name ≡ true =
          ground (arith, str_eq_iff n m, str_eq_iff name m, str_eq_iff n name) in
        rw (here, same, also) refl
    | inr differs ↦
        let apart : str_eq n name ≡ false =
          ground (arith, str_eq_iff n m, str_eq_iff name m, str_eq_iff n name) in
        rw (here, differs, apart) refl
  ]
]

get-snoc :
    (m name : String) (x : Context) (c : List (String × Context))
    → get m (c ++ ((name, x) ∷ []))
      ≡ (if is_some (get m c) then get m c else if str_eq name m then some x else none)
unfolding get
get-snoc m name x [] = refl
get-snoc m name x ((n, v) ∷ rest) = ground (arith, get-snoc m name x rest)

has_name-snoc :
    (m name : String) (x : Context) (c : List (String × Context))
    → has_name m (c ++ ((name, x) ∷ [])) ≡ (has_name m c || str_eq name m)
has_name-snoc m name x [] = ground arith
has_name-snoc m name x ((n, v) ∷ rest) = ground (arith, has_name-snoc m name x rest)

snoc-Distinct :
    (name : String) (x : Context) (c : List (String × Context))
    → Distinct c
    → has_name name c ≡ false
    → Distinct (c ++ ((name, x) ∷ []))
snoc-Distinct name x [] d fresh = (refl, tt)
snoc-Distinct name x ((n, v) ∷ rest) (new, d) fresh = (
  rw (has_name-snoc n name x rest) (ground (arith, str_eq_iff n name, str_eq_iff name n)),
  snoc-Distinct name x rest d (ground arith),
)

has_name-cut_first-le :
    (m name : String) (c : List (String × Context))
    → has_name m c ≡ false
    → has_name m (cut_first name c).1 ≡ false
unfolding cut_first
has_name-cut_first-le m name [] h = refl
has_name-cut_first-le m name ((n, v) ∷ rest) h = elim (Bool-cases (str_eq n name)) [
  | inl same ↦ rw (same) (ground arith)
  | inr differs ↦ rw (differs) (ground (arith, has_name-cut_first-le m name rest))
]

cut_first-Distinct :
    (name : String) (c : List (String × Context)) → Distinct c → Distinct (cut_first name c).1
unfolding cut_first
cut_first-Distinct name [] d = tt
cut_first-Distinct name ((n, v) ∷ rest) (fresh, d) = elim (Bool-cases (str_eq n name)) [
  | inl same ↦ rw (same) d
  | inr differs ↦
      rw (differs) (has_name-cut_first-le n name rest fresh, cut_first-Distinct name rest d)
]

get-absent : (n : String) (c : List (String × Context)) → has_name n c ≡ false → get n c ≡ none
unfolding get
get-absent n [] h = refl
get-absent n ((m, v) ∷ rest) h = ground (arith, get-absent n rest)

get-cut_first :
    (m name : String) (c : List (String × Context))
    → Distinct c
    → get m (cut_first name c).1 ≡ (if str_eq name m then none else get m c)
unfolding get cut_first
get-cut_first m name [] d = ground arith
get-cut_first m name ((n, v) ∷ rest) (fresh, d) = elim (Bool-cases (str_eq n name)) [
  | inl same ↦ rw (same) (
      ground (arith, str_eq_iff n m, str_eq_iff n name, str_eq_iff name m, get-absent n rest fresh))
  | inr differs ↦ rw (differs) (
      ground
        (arith, str_eq_iff n m, str_eq_iff n name, str_eq_iff name m, get-cut_first m name rest d))
]

same_either : (o : Option Context) → (if is_some o then o else none) ≡ o
same_either none = refl
same_either (some v) = refl

is_none : (o : Option Context) → is_some o ≡ false → o ≡ none
is_none none h = refl
is_none (some v) h = absurd (cc h)

is_some-value : (a b : Option Context) → value_in a ≡ value_in b → is_some a ≡ is_some b
is_some-value none none h = refl
is_some-value (some a) (some b) h = refl
is_some-value none (some b) h = absurd (cc h)
is_some-value (some a) none h = absurd (cc h)

renewed-value :
    (x : Context) (o : Option Context) → is_some o ≡ true → value_in (renewed x o) ≡ some x.value
renewed-value x none h = absurd (cc h)
renewed-value x (some c) h = refl

-- What the list has for a name after the addition.
abbrev pub entry_after : String → Context → List (String × Context) → String → Option Context
entry_after name x entries m =
    if str_eq name m
    then (if is_some (get m entries) then renewed x (get m entries) else some x)
    else get m entries

-- `AddContext` keeps the texts of the list and of the table in step, each name once. After it the
-- name has the text of the new value and every other name what it had; the table has the Go type of
-- the new value too, but an entry of the list that the name had before keeps its old one.
pub add_context-IsValid :
    (name : String) (x : Context) (c : Contexts)
    → IsValid c
    → IsValid (add_context name x c)
      × ((m : String)
          → get m (add_context name x c).lookup
            ≡ (if str_eq name m then some x else get m c.lookup))
      × ((m : String) → get m (add_context name x c).entries ≡ entry_after name x c.entries m)
unfolding add_context
add_context-IsValid name x c (d, agree) = elim (Bool-cases (is_some (get name c.lookup))) [
  | inl known ↦ rw (known) (
    (set_value-Distinct name x c.entries d, λ m. agrees m _ (set_known m known)),
    λ m. get-put name m x c.lookup,
    λ m. set_known m known,
  )
  | inr new ↦ rw (new) (
    (snoc-Distinct name x c.entries d (absent new), λ m. agrees m _ (append_new m new)),
    λ m. get-put name m x c.lookup,
    λ m. append_new m new,
  )
]
  where
    listed : is_some (get name c.entries) ≡ is_some (get name c.lookup)
    listed = is_some-value (get name c.entries) (get name c.lookup) (agree name)

    at_name :
        (m : String)
        → str_eq name m ≡ true
        → is_some (get m c.entries) ≡ is_some (get name c.lookup)
    at_name m same = ap (λ k. is_some (get k c.entries)) (sym ((str_eq_iff name m).0 same)) ∙ listed

    after-value :
        (m : String)
        → value_in (entry_after name x c.entries m) ≡ value_in (get m (put name x c.lookup))
    after-value m = rw (get-put name m x c.lookup) (elim (Bool-cases (str_eq name m)) [
      | inr differs ↦ rw (differs) (agree m)
      | inl same ↦ rw (same) (elim (Bool-cases (is_some (get m c.entries))) [
        | inl old ↦ rw (old) (renewed-value x (get m c.entries) old)
        | inr new ↦ rw (new) refl
      ])
    ])

    agrees :
        (m : String) (o : Option Context)
        → o ≡ entry_after name x c.entries m
        → value_in o ≡ value_in (get m (put name x c.lookup))
    agrees m o h = ap value_in h ∙ after-value m

    set_known :
        (m : String)
        → is_some (get name c.lookup) ≡ true
        → get m (set_value name x c.entries) ≡ entry_after name x c.entries m
    set_known m known = rw (get-set_value m name x c.entries) (elim (Bool-cases (str_eq name m)) [
      | inr differs ↦ rw (differs) refl
      | inl same ↦ rw (same, at_name m same ∙ known) refl
    ])

    append_new :
        (m : String)
        → is_some (get name c.lookup) ≡ false
        → get m (c.entries ++ ((name, x) ∷ [])) ≡ entry_after name x c.entries m
    append_new m new = rw (get-snoc m name x c.entries) (elim (Bool-cases (str_eq name m)) [
      | inr differs ↦ rw (differs) (same_either (get m c.entries))
      | inl same ↦ rw (same, at_name m same ∙ new) refl
    ])

    absent : is_some (get name c.lookup) ≡ false → has_name name c.entries ≡ false
    absent new = has_name-get name c.entries ∙ listed ∙ new

-- `DeleteContext` keeps the list and the table in step, and after it the name has no value and
-- every other name the value it had.
delete_context-IsValid :
    (name : String) (c : Contexts)
    → IsValid c
    → IsValid (delete_context name c).1
      × ((m : String)
          → get m (delete_context name c).1.entries
            ≡ (if str_eq name m then none else get m c.entries))
unfolding delete_context
delete_context-IsValid name c (d, agree) = elim (Bool-cases (is_some (get name c.lookup))) [
  | inl known ↦
      rw (known) (
        (cut_first-Distinct name c.entries d, λ m. agrees m),
        λ m. get-cut_first m name c.entries d,
      )
  | inr new ↦ rw (new) ((d, agree), λ m. missing m new)
]
  where
    agrees :
        (m : String)
        → value_in (get m (cut_first name c.entries).1) ≡ value_in (get m (del name c.lookup))
    agrees m =
        rw (get-cut_first m name c.entries d, get-del name m c.lookup)
          (elim (Bool-cases (str_eq name m)) [
            | inl same ↦ rw (same) refl
            | inr differs ↦ rw (differs) (agree m)
          ])

    missing :
        (m : String)
        → is_some (get name c.lookup) ≡ false
        → get m c.entries ≡ (if str_eq name m then none else get m c.entries)
    missing m new = elim (Bool-cases (str_eq name m)) [
      | inr differs ↦ rw (differs) refl
      | inl same ↦ rw (same) (
          subst (λ k. get k c.entries ≡ none) ((str_eq_iff name m).0 same)
            (is_none (get name c.entries)
              (is_some-value (get name c.entries) (get name c.lookup) (agree name) ∙ new)))
    ]
