-- ===== src/Acl.antt =====
-- internal/acl/permission.go: the permissions of a user, as text and as a table.
pub mod Decimal
pub mod RoundTrip
use Prim.Native.Nat.{bit_and}
use Prim.Native.String.{◌++◌}
use formicary.Common.{
  String, ℕ, suc, ◌==◌, Bool, true, false, ◌&&◌, ◌||◌, Option, none, some, str_eq, List, [], ◌∷◌,
  if◌then◌else◌, ℤ, pos, negsuc, is_neg, Map, get, put, split_at, trim_space,
}
use formicary.Acl.Decimal.{itoa, atoi}

pub record Permission : Type 0 where
  pub resource : String
  pub actions : ℤ

-- The actions as the bits of their constants.
abbrev read_action : ℕ
read_action = 4

abbrev query_action : ℕ
query_action = 8

abbrev write_action : ℕ
write_action = 16

abbrev metrics_action : ℕ
metrics_action = 65536

abbrev subscribe_action : ℕ
subscribe_action = 131072

abbrev all_actions : ℕ
all_actions = 1073741824

-- `WildAll`
unfoldable pub wild_all : Permission → Bool
wild_all p = elim p.actions [ pos n ↦ n == all_actions | negsuc _ ↦ true ]

-- `Has` of a permission; negative actions are wild, so their bits are not asked for.
unfoldable pub has : Permission → ℕ → Bool
unfolding wild_all
has p action = wild_all p || elim p.actions [ pos n ↦ bit_and n action == action | negsuc _ ↦ true ]

-- `ReadOnly`; View is Read, and Verify is Write.
unfoldable pub read_only : Permission → Bool
unfolding has
read_only p =
    has p 0
    || has p read_action
    || has p query_action
    || has p write_action
    || has p metrics_action
    || has p subscribe_action

-- `String` of a permission.
unfoldable pub show_permission : Permission → String
show_permission p = p.resource ++ ("=" ++ itoa p.actions)

-- The loop of `MarshalPermissions` over what is written so far.
unfoldable pub write_permissions : String → List Permission → String
unfolding show_permission
write_permissions sb [] = sb
write_permissions sb (p ∷ ps) =
    let separated = if str_eq sb "" then sb else sb ++ ";" in
    write_permissions (separated ++ show_permission p) ps

-- `MarshalPermissions`
unfoldable pub marshal_permissions : List Permission → String
unfolding write_permissions
marshal_permissions ps = write_permissions "" ps

-- One line of `UnmarshalPermissions`, split at its equality sign.
unfoldable pub parse_line : List String → Option Permission
parse_line (name ∷ number ∷ []) = elim (atoi (trim_space number)) [
  | none ↦ none
  | some actions ↦ some (record { resource = trim_space name; actions = actions })
]
parse_line _ = none

unfoldable pub parse_lines : List String → List Permission
unfolding parse_line
parse_lines [] = []
parse_lines (line ∷ lines) =
    let rest = parse_lines lines in
    elim (parse_line (split_at 61 line)) [ none ↦ rest | some p ↦ p ∷ rest ]

-- `UnmarshalPermissions`
unfoldable pub unmarshal_permissions : String → List Permission
unfolding parse_lines
unmarshal_permissions s = if str_eq s "" then [] else parse_lines (split_at 59 s)

pub record Permissions : Type 0 where
  pub lookup : Map Permission
  pub has_wildcard : Bool

abbrev is_wildcard : Permission → Bool
is_wildcard p = str_eq p.resource "*" && wild_all p

unfoldable pub add_all : List Permission → Permissions → Permissions
unfolding wild_all
add_all [] ps = ps
add_all (p ∷ more) ps = add_all more (record {
  lookup = put p.resource p ps.lookup;
  has_wildcard = ps.has_wildcard || is_wildcard p;
})

-- `NewPermissions`
unfoldable pub new_permissions : String → Permissions
unfolding add_all unmarshal_permissions
new_permissions s = add_all (unmarshal_permissions s) (record { lookup = []; has_wildcard = false })

-- `Has` of the table.
unfoldable pub has_permission : Permissions → String → ℕ → Bool
unfolding has
has_permission ps resource action =
    ps.has_wildcard || elim (get resource ps.lookup) [ none ↦ false | some p ↦ has p action ]
