-- ===== src/Authorizer/Policy.antt =====
-- What the roles may do: each is contained in the next, and none but the administrator's reaches
-- the schema, the internal tables or an unlisted function.
use nsqlite.Prelude.{◌≡◌, ◌≢◌, refl, ◌↔◌, Bool, true, false, Option, some, arith, Text}
use nsqlite.Authorizer.Defs.{
  AuthorizerRole, admin, read_write, read_only, Action, function, pragma, transaction, savepoint,
  insert, update, delete, other, ok, is_internal_table, is_allowed_function, is_readonly_pragma,
  is_introspection_pragma, authorizer,
}

-- The roles by what they may do.
abbrev pub IsWithin : AuthorizerRole → AuthorizerRole → Type 0
IsWithin r s =
    (action : Action) (arg3 arg4 : Option Text)
    → authorizer r action arg3 arg4 ≡ ok
    → authorizer s action arg3 arg4 ≡ ok

-- Whatever a reader may do a writer may do, and whatever a writer may do an administrator may do.
pub roles_nested : IsWithin read_only read_write × IsWithin read_write admin
unfolding authorizer
roles_nested = (λ action arg3 arg4 h. ground arith, λ action arg3 arg4 h. refl)

-- Rows, transactions and savepoints are what a reader may not touch.
abbrev pub is_write : Action → Bool
is_write transaction = true
is_write savepoint = true
is_write insert = true
is_write update = true
is_write delete = true
is_write _ = false

-- A reader may do exactly what a writer may do and what is no insert, update, delete, transaction
-- or savepoint.
pub read_only_iff :
    (action : Action) (arg3 arg4 : Option Text)
    → (authorizer read_only action arg3 arg4 ≡ ok)
      ↔ ((authorizer read_write action arg3 arg4 ≡ ok) × (is_write action ≡ false))
unfolding authorizer
read_only_iff action a b = (λ h. ground arith, λ h. ground arith)

abbrev pub changes_rows : Action → Bool
changes_rows insert = true
changes_rows update = true
changes_rows delete = true
changes_rows _ = false

abbrev pub is_other : Action → Bool
is_other (other code) = true
is_other _ = false

-- What a role other than the administrator's is granted is none of the unnamed actions (those on
-- the schema, ATTACH and the rest), changes rows of no internal table, calls only a listed
-- function, and hands an argument only to an introspection pragma.
pub granted_limits :
    (role : AuthorizerRole) (action : Action) (arg3 arg4 : Option Text)
    → role ≢ admin
    → authorizer role action arg3 arg4 ≡ ok
    → (is_other action ≡ false)
      × (changes_rows action ≡ true → is_internal_table arg3 ≡ false)
      × (action ≡ function → is_allowed_function arg4 ≡ true)
      × ((name arg : Text)
          → action ≡ pragma
          → arg3 ≡ some name
          → arg4 ≡ some arg
          → is_introspection_pragma name ≡ true)
unfolding authorizer is_readonly_pragma
granted_limits admin action a b ne h = absurd (ne refl)
granted_limits read_write action a b ne h =
    (ground arith, λ c. ground arith, λ f. ground arith, λ name arg p q r. ground arith)
granted_limits read_only action a b ne h =
    (ground arith, λ c. ground arith, λ f. ground arith, λ name arg p q r. ground arith)
