-- ===== src/Auth/Permissions.antt =====
-- src/auth/portal-permissions.ts: the roles, what each permits, and the role of an identity.
use freeipa_admin_dashboard.Base.{
  ℕ, ◌≤◌, String, ◌≡◌, refl, Bool, true, Option, none, some, List, [], ◌∷◌, ◌++◌, map, str_eq,
  if◌then◌else◌, includes, is_blank, eq_refl, arith,
}
use freeipa_admin_dashboard.Base.Json.{Value, str, object, null, entries}

pub data Role : Type 0 where
  viewer operator admin : Role

pub data Permission : Type 0 where
  directory_read freeipa_write freeipa_delete xyops_run xyops_approve settings_manage : Permission
  backup_export backup_export_encrypted backup_restore_preview : Permission
  backup_restore_test backup_restore_prepare backup_restore_commit : Permission
  backup_restore_cancel maintenance_manage : Permission

unfoldable pub permission_text : Permission → String
permission_text directory_read = "directory.read"
permission_text freeipa_write = "freeipa.write"
permission_text freeipa_delete = "freeipa.delete"
permission_text xyops_run = "xyops.run"
permission_text xyops_approve = "xyops.approve"
permission_text settings_manage = "settings.manage"
permission_text backup_export = "backup.export"
permission_text backup_export_encrypted = "backup.export.encrypted"
permission_text backup_restore_preview = "backup.restore.preview"
permission_text backup_restore_test = "backup.restore.test"
permission_text backup_restore_prepare = "backup.restore.prepare"
permission_text backup_restore_commit = "backup.restore.commit"
permission_text backup_restore_cancel = "backup.restore.cancel"
permission_text maintenance_manage = "maintenance.manage"

-- `portalPermissionOrder`.
unfoldable pub portal_permission_order : List Permission
portal_permission_order =
    directory_read ∷ freeipa_write ∷ freeipa_delete ∷ xyops_run ∷ xyops_approve ∷ settings_manage
    ∷ backup_export ∷ backup_export_encrypted ∷ backup_restore_preview ∷ backup_restore_test
    ∷ backup_restore_prepare ∷ backup_restore_commit ∷ backup_restore_cancel ∷ maintenance_manage
    ∷ []

unfoldable pub portal_role_permissions : Role → List Permission
portal_role_permissions viewer = directory_read ∷ []
portal_role_permissions operator = directory_read ∷ freeipa_write ∷ xyops_run ∷ []
portal_role_permissions admin =
    directory_read ∷ freeipa_write ∷ freeipa_delete ∷ xyops_run ∷ xyops_approve ∷ settings_manage
    ∷ backup_export ∷ backup_export_encrypted ∷ backup_restore_preview ∷ backup_restore_test
    ∷ backup_restore_prepare ∷ backup_restore_commit ∷ backup_restore_cancel ∷ maintenance_manage
    ∷ []

unfoldable pub role_has_permission : Role → Permission → Bool
unfolding portal_role_permissions permission_text
role_has_permission r p =
    includes (map permission_text (portal_role_permissions r)) (permission_text p)

unfoldable pub role_text : Role → String
role_text viewer = "viewer"
role_text operator = "operator"
role_text admin = "admin"

-- `isPortalRole` and the value as a role: `none` where the test fails.
unfoldable pub role_of_text : String → Option Role
role_of_text s =
    if str_eq s "viewer"
    then some viewer
    else if str_eq s "operator"
    then some operator
    else if str_eq s "admin"
    then some admin
    else none

unfoldable pub is_portal_role : Option Value → Option Role
unfolding role_of_text
is_portal_role (some (str s)) = role_of_text s
is_portal_role _ = none

abbrev role_or : Option Role → Role → Role
role_or (some r) d = r
role_or none d = d

-- `trim().toLowerCase()`, `String` of a value, and `JSON.parse` (`none`: it throws).
pub record Runtime : Type 0 where
  pub fold : String → String
  pub show : Value → String
  pub parse : String → Option Value

-- `Object.fromEntries`: of entries with one key the last one stays.
unfoldable pub last_entry : (String → String) → String → List (String × Value) → Option Value
last_entry fold key [] = none
last_entry fold key ((k, v) ∷ r) = elim (last_entry fold key r) [
  | some w ↦ some w
  | none ↦ if str_eq (fold k) key then some v else none
]

unfoldable pub assigned_role : (String → String) → String → List (String × Value) → Role → Role
unfolding is_portal_role last_entry
assigned_role fold identity es role =
    role_or (is_portal_role (last_entry fold (fold identity) es))
      (role_or (is_portal_role (last_entry fold "*" es)) role)

unfoldable pub default_role : Runtime → Option Value → Role → Role
unfolding role_of_text
default_role rt none fallback = role_or (role_of_text (rt.fold "")) fallback
default_role rt (some null) fallback = role_or (role_of_text (rt.fold "")) fallback
default_role rt (some v) fallback = role_or (role_of_text (rt.fold (rt.show v))) fallback

abbrev assigned : (String → String) → String → Option Value → Role → Role
assigned fold identity (some (object fs)) role = assigned_role fold identity (entries fs) role
assigned fold identity _ role = role

unfoldable pub resolve_portal_role : Runtime → String → Option Value → Option String → Role → Role
unfolding default_role assigned_role entries
resolve_portal_role rt identity value none fallback = default_role rt value fallback
resolve_portal_role rt identity value (some json) fallback =
    let role = default_role rt value fallback in
    if is_blank json then role else assigned rt.fold identity (rt.parse json) role

unfoldable pub rank : Role → ℕ
rank viewer = 0
rank operator = 1
rank admin = 2

viewer-to-operator :
    (p : Permission) → role_has_permission viewer p ≡ true → role_has_permission operator p ≡ true
unfolding role_has_permission
viewer-to-operator directory_read h = refl
viewer-to-operator freeipa_write h = refl
viewer-to-operator xyops_run h = refl
viewer-to-operator freeipa_delete h = h
viewer-to-operator xyops_approve h = h
viewer-to-operator settings_manage h = h
viewer-to-operator backup_export h = h
viewer-to-operator backup_export_encrypted h = h
viewer-to-operator backup_restore_preview h = h
viewer-to-operator backup_restore_test h = h
viewer-to-operator backup_restore_prepare h = h
viewer-to-operator backup_restore_commit h = h
viewer-to-operator backup_restore_cancel h = h
viewer-to-operator maintenance_manage h = h

pub admin-has_every : (p : Permission) → role_has_permission admin p ≡ true
unfolding role_has_permission
admin-has_every directory_read = refl
admin-has_every freeipa_write = refl
admin-has_every freeipa_delete = refl
admin-has_every xyops_run = refl
admin-has_every xyops_approve = refl
admin-has_every settings_manage = refl
admin-has_every backup_export = refl
admin-has_every backup_export_encrypted = refl
admin-has_every backup_restore_preview = refl
admin-has_every backup_restore_test = refl
admin-has_every backup_restore_prepare = refl
admin-has_every backup_restore_commit = refl
admin-has_every backup_restore_cancel = refl
admin-has_every maintenance_manage = refl

-- A role permits whatever a role of a lower or the same rank (viewer, operator, admin) permits.
pub role_has_permission_monotone :
    (r s : Role) (p : Permission)
    → rank r ≤ rank s
    → role_has_permission r p ≡ true
    → role_has_permission s p ≡ true
unfolding rank
role_has_permission_monotone r admin p h e = admin-has_every p
role_has_permission_monotone viewer viewer p h e = e
role_has_permission_monotone viewer operator p h e = viewer-to-operator p e
role_has_permission_monotone operator operator p h e = e
role_has_permission_monotone operator viewer p h e = absurd (omega arith)
role_has_permission_monotone admin viewer p h e = absurd (omega arith)
role_has_permission_monotone admin operator p h e = absurd (omega arith)

role_of_text_lem : (r : Role) → is_portal_role (some (str (role_text r))) ≡ some r
unfolding is_portal_role role_text
role_of_text_lem viewer = refl
role_of_text_lem operator = refl
role_of_text_lem admin = refl

last_entry-append :
    (fold : String → String) (key k : String) (v : Value) (es : List (String × Value))
    → fold k ≡ key
    → last_entry fold key (es ++ ((k, v) ∷ [])) ≡ some v
unfolding last_entry
last_entry-append fold key k v [] h = rw (h, eq_refl key) refl
last_entry-append fold key k v ((k2, w) ∷ es) h = rw (last_entry-append fold key k v es h) refl

-- Of the entries for an identity, up to blanks and case, the last one decides when it names a role,
-- whatever the entries before it, the entry for everyone and the default say.
pub assigned_role_last :
    (fold : String → String) (identity k : String) (es : List (String × Value)) (r role : Role)
    → fold k ≡ fold identity
    → assigned_role fold identity (es ++ ((k, str (role_text r)) ∷ [])) role ≡ r
unfolding assigned_role
assigned_role_last fold identity k es r role h =
    rw (last_entry-append fold (fold identity) k (str (role_text r)) es h, role_of_text_lem r) refl
