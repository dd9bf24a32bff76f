-- ===== src/Admin/Lockout.antt =====
-- Who is deactivated is locked out, and nobody locks out themselves.
use guitar_online.Base.{
  ℕ, ◌≡◌, ◌≢◌, refl, sym, subst, ◌∙◌, true, false, Bool, some, String, arith, ==→ne, ◌==◌,
}
use guitar_online.Base.Table.{find, save, find-save_self, find-save_ne, key-find, find_own}
use guitar_online.Store.Enums.{RoleEnum, is_teacher}
use guitar_online.Store.Rows.{User, user_key}
use guitar_online.Store.Settings.{AuthSettings}
use guitar_online.Store.Text.{Str}
use guitar_online.Store.Session.{Db, Env, Result, ok, err}
use guitar_online.Store.Ends.{
  Ends, Ends-pure, Ends-if, Ends-if_found, Ends-gets, Ends-or_raise, Ends-raise_if, Ends-modify,
  Ends-bind, Ends-mono,
}
use guitar_online.Identity.Security.{Crypto}
use guitar_online.Identity.Service.{get_user_from_access_token}
use guitar_online.Admin.Repository.{
  sync_missing, sync_teacher_profile_state, with_role, with_active, set_user_role, set_user_active,
}
use guitar_online.Admin.Users.{update_user_role, deactivate_user}

-- The users are these, whether the call returns or raises.
abbrev HasUsers : {A : Type 0} → Db → Result A → Db → Type 0
HasUsers d r d' = d'.users ≡ d.users

sync_missing-HasUsers :
    (display_name : String → String) (id : ℕ) (u : User) (create : Bool) (d : Db)
    → Ends (HasUsers d) (sync_missing display_name id u create) d
sync_missing-HasUsers display_name id u create d =
    Ends-if (is_teacher u.role) _ _
      (λ _.
        Ends-if create _ _ (λ _. Ends-modify _ _ (Ends-modify _ _ (Ends-pure _ refl)))
          λ _. Ends-pure _ refl)
      λ _. Ends-pure _ refl

sync-HasUsers :
    (display_name : String → String) (id : ℕ) (u : User) (create : Bool) (d : Db)
    → Ends (HasUsers d) (sync_teacher_profile_state display_name id u create) d
unfolding sync_teacher_profile_state
sync-HasUsers display_name id u create d = Ends-gets _ _ (
    Ends-if_found _ _ _ (λ _. sync_missing-HasUsers display_name id u create d)
      λ p _. Ends-modify _ _ (Ends-pure _ refl))

module _ (display_name : String → String) (env : Env) (user : User) (admin_id : ℕ) (d : Db) where
  set_user_role-users :
      (role : RoleEnum)
      → Ends
          (λ r d'. d'.users ≡ save user_key (with_role role user) d.users)
          (set_user_role display_name env user role admin_id)
          d
  unfolding set_user_role
  set_user_role-users role = Ends-modify _ _ (
      Ends-bind _ _ _ (sync-HasUsers display_name (env.uuid4 0) (with_role role user) true _)
        (λ e d' same. same) λ sync d' same. Ends-modify _ _ (Ends-pure _ same))

  set_user_active-users :
      (is_active : Bool)
      → Ends
          (λ r d'. d'.users ≡ save user_key (with_active is_active user) d.users)
          (set_user_active display_name env user is_active admin_id)
          d
  unfolding set_user_active
  set_user_active-users is_active = Ends-modify _ _ (
      Ends-bind _ _ _
        (sync-HasUsers display_name (env.uuid4 0) (with_active is_active user) false _)
        (λ e d' same. same) λ sync d' same. Ends-modify _ _ (Ends-pure _ same))

-- The account under a key, if there is one, is inactive.
abbrev IsInactive : ℕ → Db → Type 0
IsInactive id d = (u : User) → find user_key id d.users ≡ some u → u.is_active ≡ false

-- A token is accepted, if at all, as another user's.
abbrev pub IsOther : ℕ → Result User → Db → Type 0
IsOther id (ok v) d = v.id ≢ id
IsOther id (err e) d = Unit

inactive-IsOther :
    {Token : Type 0} (crypto : Crypto Token) (now id : ℕ) (token : Token) (d : Db)
    → IsInactive id d
    → Ends (IsOther id) (get_user_from_access_token crypto now token) d
unfolding get_user_from_access_token
inactive-IsOther crypto now id token d inactive =
    Ends-or_raise _ _ _ (λ _. tt)
      λ c _.
        Ends-raise_if _ _ _ (λ _. tt)
          λ _.
            Ends-or_raise _ _ _ (λ _. tt)
              λ subject _. Ends-gets _ _ (
                Ends-or_raise _ _ _ (λ _. tt)
                  λ u found.
                    Ends-raise_if _ _ _ (λ _. tt)
                      λ active. Ends-pure u λ same.
                        let own = find_own user_key subject u d.users found in
                        absurd (
                          ground (
                            arith,
                            active,
                            inactive u (subst (λ k. find user_key k d.users ≡ some u) same own),
                          )))

saved-IsInactive :
    (id : ℕ) (user : User) (d d' : Db)
    → find user_key id d.users ≡ some user
    → d'.users ≡ save user_key (with_active false user) d.users
    → IsInactive id d'
saved-IsInactive id user d d' found saved u at =
    let own : user.id ≡ id = key-find user_key id user d.users found in
    let self =
      find-save_self user_key (with_active false user) user d.users
        (find_own user_key id user d.users found) in
    let hit : find user_key user.id d'.users ≡ some (with_active false user) = rw saved self in
    ground
      (arith, at, subst (λ k. find user_key k d'.users ≡ some (with_active false user)) own hit)

module _ {Token : Type 0} (crypto : Crypto Token) (now id : ℕ) (token : Token) where
  -- What a deactivation means for an access token.
  abbrev pub IsLockedOut : Result User → Db → Type 0
  IsLockedOut (ok u) d' = Ends (IsOther id) (get_user_from_access_token crypto now token) d'
  IsLockedOut (err e) d' = Unit

  inactive-IsLockedOut : (r : Result User) (d' : Db) → IsInactive id d' → IsLockedOut r d'
  inactive-IsLockedOut (ok u) d' h = inactive-IsOther crypto now id token d' h
  inactive-IsLockedOut (err e) d' h = tt

  -- After a deactivation that has returned, no access token is accepted as the deactivated user's,
  -- whenever it was issued.
  pub deactivate_user-IsLockedOut :
      (display_name : String → String) (env : Env) (actor : User) (d : Db)
      → Ends IsLockedOut (deactivate_user display_name env actor id) d
  unfolding deactivate_user
  deactivate_user-IsLockedOut display_name env actor d =
      Ends-raise_if _ _ _ (λ _. tt)
        λ _. Ends-gets _ _ (
          Ends-or_raise _ _ _ (λ _. tt)
            λ user found.
              Ends-raise_if _ _ _ (λ _. tt)
                λ _.
                  Ends-mono _ _ _
                    (λ r d' saved.
                      inactive-IsLockedOut r d' (saved-IsInactive id user d d' found saved))
                    (set_user_active-users display_name env user actor.id d false))

-- The row of the acting user is as it was.
abbrev IsOwn : User → Db → Result User → Db → Type 0
IsOwn actor d r d' = find user_key actor.id d'.users ≡ find user_key actor.id d.users

module _ (display_name : String → String) (env : Env) (actor : User) (user_id : ℕ) (d : Db) where
  other_row :
      (user : User) (d' : Db) (f : User)
      → (user.id == actor.id) ≡ false
      → f.id ≡ user.id
      → d'.users ≡ save user_key f d.users
      → find user_key actor.id d'.users ≡ find user_key actor.id d.users
  other_row user d' f other same saved =
      rw saved (find-save_ne user_key actor.id f d.users (λ own. ==→ne _ _ other (sym same ∙ own)))

  deactivate_user-IsOwn : Ends (IsOwn actor d) (deactivate_user display_name env actor user_id) d
  unfolding deactivate_user
  deactivate_user-IsOwn =
      Ends-raise_if _ _ _ (λ _. refl)
        λ _. Ends-gets _ _ (
          Ends-or_raise _ _ _ (λ _. refl)
            λ user found.
              Ends-raise_if _ _ _ (λ _. refl)
                λ other.
                  Ends-mono _ _ _ (λ r d'. other_row user d' (with_active false user) other refl)
                    (set_user_active-users display_name env user actor.id d false))

  update_user_role-IsOwn :
      (cfg : AuthSettings) (text : Str) (role : RoleEnum)
      → Ends (IsOwn actor d) (update_user_role display_name cfg text env actor user_id role) d
  unfolding update_user_role
  update_user_role-IsOwn cfg text role =
      Ends-raise_if _ _ _ (λ _. refl)
        λ _. Ends-gets _ _ (
          Ends-or_raise _ _ _ (λ _. refl)
            λ known _. Ends-gets _ _ (
              Ends-or_raise _ _ _ (λ _. refl)
                λ user found.
                  Ends-raise_if _ _ _ (λ _. refl)
                    λ other.
                      Ends-raise_if _ _ _ (λ _. refl)
                        λ _. Ends-gets _ _ (
                          Ends-if _ _ _ (λ _. Ends-pure user refl)
                            λ _.
                              Ends-mono _ _ _
                                (λ r d'. other_row user d' (with_role known user) other refl)
                                (set_user_role-users display_name env user actor.id d known))))

-- Neither a change of a role nor a deactivation, whether it returns or raises, changes the row of the
-- user who acts.
account_changes-IsOwn :
    (cfg : AuthSettings) (text : Str) (display_name : String → String) (env : Env) (actor : User)
    (user_id : ℕ) (role : RoleEnum) (d : Db)
    → Ends (IsOwn actor d) (update_user_role display_name cfg text env actor user_id role) d
      × Ends (IsOwn actor d) (deactivate_user display_name env actor user_id) d
account_changes-IsOwn cfg text display_name env actor user_id role d = (
  update_user_role-IsOwn display_name env actor user_id d cfg text role,
  deactivate_user-IsOwn display_name env actor user_id d,
)
