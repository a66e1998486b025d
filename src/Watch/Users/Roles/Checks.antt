-- ===== src/Watch/Users/Roles/Checks.antt =====
-- What the checks of a granted edit have established.
use cvebeacon.Prelude.{
  ℕ, String, ◌≡◌, refl, sym, ap, ◌∙◌, subst, Bool, true, false, Option, none, some, List, [], ◌∷◌,
  arith, if◌then◌else◌, Bool-cases, Option-cases, inl, inr, str_eq, eq_iff, member, select,
}
use cvebeacon.Watch.Users.{Account, Users, Proof, granted, account_by_id, change_account}
use cvebeacon.Watch.Users.Access.{
  all_permissions, subset, validate_proof, role_in, stored_role, permissions_in, role_permissions,
  known_permissions, require_permission, authorize_target, authorize_assignment, require_role,
}
use cvebeacon.Watch.Users.Accounts.{put_user_role, found}
use cvebeacon.Watch.Users.Granted.{Attempt-cases, granted-injective}

pub stored_role-put :
    (i : ℕ) (role : String) (roles : List (ℕ × String))
    → stored_role (put_user_role i role roles) i ≡ role
unfolding stored_role put_user_role
stored_role-put i role [] = ground arith
stored_role-put i role ((j, old) ∷ rest) = ground (arith, stored_role-put i role rest)

select-subset :
    (p : String → Bool) (values held : List String)
    → subset values held ≡ true
    → subset (select p values) held ≡ true
select-subset p [] held h = refl
select-subset p (v ∷ values) held h = ground (arith, select-subset p values held)

-- What a granted assignment of another role has checked.
assignment-subset :
    (t : Users) (actor granted_to : Account) (role : String)
    → actor.is_admin ≡ false
    → authorize_assignment t actor role ≡ granted granted_to
    → (str_eq role "admin" ≡ false)
      × (subset (known_permissions (role_permissions t.roles role)) (permissions_in t actor) ≡ true)
unfolding authorize_assignment require_role
assignment-subset t actor granted_to role plain h =
    elim (Option-cases (role_permissions t.roles role)) [
      | inl e ↦ ground (arith, e)
      | inr (permissions, e) ↦ ground (
        arith,
        e,
        select-subset (λ p. member p all_permissions) permissions (permissions_in t actor),
        Bool-cases (str_eq role "admin"),
        Bool-cases (subset permissions (permissions_in t actor)),
      )
    ]

-- What a granted change of an account has checked.
pub target-subset :
    (t : Users) (proof : Proof) (actor target holder : Account)
    → validate_proof t proof ≡ granted actor
    → actor.is_admin ≡ false
    → authorize_target t proof target ≡ granted holder
    → (target.is_admin ≡ false) × (subset (permissions_in t target) (permissions_in t actor) ≡ true)
unfolding authorize_target require_permission
target-subset t proof actor target holder h plain k = ground (arith, h, k, plain)

pub plain-permissions :
    (t : Users) (user : Account) (role : String)
    → user.is_admin ≡ false
    → stored_role t.user_roles user.id ≡ role
    → permissions_in t user ≡ known_permissions (role_permissions t.roles role)
unfolding permissions_in role_in
plain-permissions t user role plain h =
    rw plain (ap (λ r. known_permissions (role_permissions t.roles r)) h)

plain-role_in :
    (t : Users) (user : Account)
    → user.is_admin ≡ false
    → role_in t user ≡ stored_role t.user_roles user.id
unfolding role_in
plain-role_in t user plain = ground (arith, plain)

-- The role that an edit may give.
pub role-within :
    (t : Users) (actor user other : Account) (role : String)
    → actor.is_admin ≡ false
    → user.is_admin ≡ false
    → subset (permissions_in t user) (permissions_in t actor) ≡ true
    → str_eq (stored_role t.user_roles user.id) "admin" ≡ false
    → (if str_eq role (role_in t user) then granted actor else authorize_assignment t actor role)
      ≡ granted other
    → (str_eq role "admin" ≡ false)
      × (subset (known_permissions (role_permissions t.roles role)) (permissions_in t actor) ≡ true)
role-within t actor user other role plain below within stored guard =
    elim (Bool-cases (str_eq role (role_in t user))) [
      | inl e ↦
          let same = (eq_iff role (role_in t user)).0 e ∙ plain-role_in t user below in
          (
            ap (λ r. str_eq r "admin") same ∙ stored,
            ap (λ ps. subset ps (permissions_in t actor))
                  (sym (plain-permissions t user role below (sym same)))
                ∙ within,
          )
      | inr e ↦ assignment-subset t actor other role plain (
          subst
            (λ b. (if b then granted actor else authorize_assignment t actor role) ≡ granted other)
            e guard)
    ]

pub require_permission-valid :
    (t : Users) (proof : Proof) (permission : String) (a : Account)
    → require_permission t proof permission ≡ granted a
    → validate_proof t proof ≡ granted a
unfolding require_permission
require_permission-valid t proof permission a h =
    ground (arith, Attempt-cases (validate_proof t proof))

pub changed-row :
    (i : ℕ) (change : Account → Account) (flag : Bool) (accounts : List Account) (row : Account)
    → ((a : Account) → (change a).is_admin ≡ flag)
    → ((a : Account) → (change a).id ≡ a.id)
    → account_by_id i (change_account i change accounts) ≡ some row
    → (row.is_admin ≡ flag) × (row.id ≡ i)
unfolding account_by_id change_account
changed-row i change flag [] row raised kept h = ground arith
changed-row i change flag (a ∷ rest) row raised kept h =
    ground (arith, changed-row i change flag rest row raised kept, raised a, kept a)

pub found-some : (o : Option Account) (a : Account) → found o ≡ granted a → o ≡ some a
found-some none a h = ground arith
found-some (some b) a h = ap some (granted-injective b a h)
