-- ===== src/Examples/Access.antt =====
-- Permissions at which the theorem on their text is applied.
use formicary.Common.{◌≡◌, refl, [], ◌∷◌, pos, negsuc, arith, trim_space, trim_left, trim_right}
use formicary.Acl.{Permission, marshal_permissions, unmarshal_permissions}
use formicary.Acl.RoundTrip.{IsPlain, unmarshal_permissions-marshal_permissions}

abbrev dashboard : Permission
dashboard = record { resource = "Dashboard"; actions = pos 4 }

abbrev everything : Permission
everything = record { resource = "*"; actions = negsuc 0 }

dashboard-IsPlain : IsPlain dashboard
unfolding trim_space trim_left trim_right
dashboard-IsPlain = record {
  no_semicolon = refl;
  no_equals = refl;
  trimmed = refl;
  fits = omega arith;
}

everything-IsPlain : IsPlain everything
unfolding trim_space trim_left trim_right
everything-IsPlain = record {
  no_semicolon = refl;
  no_equals = refl;
  trimmed = refl;
  fits = omega arith;
}

unmarshal_permissions-marshal_permissions_example :
    unmarshal_permissions (marshal_permissions (dashboard ∷ everything ∷ []))
    ≡ dashboard ∷ everything ∷ []
unmarshal_permissions-marshal_permissions_example =
    unmarshal_permissions-marshal_permissions (dashboard ∷ everything ∷ [])
      (dashboard-IsPlain, (everything-IsPlain, tt))
