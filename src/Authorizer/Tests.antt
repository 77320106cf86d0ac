-- ===== src/Authorizer/Tests.antt =====
-- The theorems on the authorizer at concrete actions.
use nsqlite.Prelude.{◌≡◌, ◌↔◌, refl, true, false, some, none, Option, Text, codes, text_eq}
use nsqlite.Authorizer.Defs.{
  read_write, read_only, function, pragma, transaction, ok, deny, authorizer, is_internal_table,
  is_allowed_function, is_readonly_pragma, is_introspection_pragma,
}
use nsqlite.Authorizer.Policy.{is_write, read_only_iff, is_other, changes_rows, granted_limits}

read_only_iff_example :
    (authorizer read_only transaction none none ≡ ok)
    ↔ ((authorizer read_write transaction none none ≡ ok) × (is_write transaction ≡ false))
read_only_iff_example = read_only_iff transaction none none

abbrev table_info : Option Text
table_info = some (codes "table_info")

granted_limits_example :
    (is_other pragma ≡ false)
    × (changes_rows pragma ≡ true → is_internal_table table_info ≡ false)
    × (pragma ≡ function → is_allowed_function (some (codes "users")) ≡ true)
    × ((name arg : Text)
        → pragma ≡ pragma
        → table_info ≡ some name
        → some (codes "users") ≡ some arg
        → is_introspection_pragma name ≡ true)
unfolding authorizer is_readonly_pragma is_introspection_pragma text_eq
granted_limits_example =
    granted_limits read_only pragma table_info (some (codes "users")) (λ h. cc) refl

load_extension_denied : authorizer read_write function none (some (codes "load_extension")) ≡ deny
unfolding authorizer is_allowed_function text_eq
load_extension_denied = refl

substr_allowed : authorizer read_only function none (some (codes "substr")) ≡ ok
unfolding authorizer is_allowed_function text_eq
substr_allowed = refl
