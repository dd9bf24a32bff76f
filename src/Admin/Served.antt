-- ===== src/Admin/Served.antt =====
-- The calls that change accounts, one after the other.
use guitar_online.Base.{
  ℕ, ◌≡◌, sym, subst, ◌∙◌, true, false, Bool, Option, none, some, List, [], ◌∷◌, arith, String,
}
use guitar_online.Base.Table.{find, save, find-save_self, key-find, find_own}
use guitar_online.Store.Enums.{RoleEnum, TeacherStatusEnum}
use guitar_online.Store.Rows.{User, TeacherProfile, user_key, profile_key}
use guitar_online.Store.Settings.{AuthSettings}
use guitar_online.Store.Text.{Str}
use guitar_online.Store.Session.{
  Db, Env, Error, Result, close, request, or_raise, ok, err, Exec, pure, ◌>>=◌,
}
use guitar_online.Store.Ends.{
  Ends, Ends-pure, Ends-if, Ends-if_found, Ends-gets, Ends-or_raise, Ends-raise_if, Ends-modify,
  Ends-bind,
}
use guitar_online.Admin.Repository.{
  resolve_teacher_profile_status, under, new_profile, Sync, sync_found, sync_missing,
  sync_teacher_profile_state, with_role, with_active, set_user_role, set_user_active, teacher_of,
}
use guitar_online.Admin.Repository
use guitar_online.Admin.Users.{update_user_role, activate_user, deactivate_user, disable_teacher}
use guitar_online.Admin.Synced.{
  IsSyncedAt, IsSynced, IsSyncedBut, Keeps, saved-IsSynced, saved_user-IsSyncedBut,
  set_user_role-Keeps, set_user_active-Keeps,
}

-- The four calls.
pub data Call : Type 0 where
  change_role : ℕ → RoleEnum → Call
  activate deactivate disable : ℕ → Call

module _ (cfg : AuthSettings) (text : Str) (display_name : String → String) where
  abbrev pub perform : Env → User → Call → Exec (Unit {0})
  perform env actor (change_role user_id role) =
      update_user_role display_name cfg text env actor user_id role >>= λ _. pure tt
  perform env actor (activate user_id) =
      activate_user display_name env actor user_id >>= λ _. pure tt
  perform env actor (deactivate user_id) =
      deactivate_user display_name env actor user_id >>= λ _. pure tt
  perform env actor (disable teacher_id) = disable_teacher actor teacher_id >>= λ _. pure tt

  done : {A : Type 0} (m : Exec A) (d : Db) → Ends Keeps m d → Ends Keeps (m >>= λ _. pure tt) d
  done m d h = Ends-bind _ _ Keeps h (λ e d' k. k) λ a d' k. Ends-pure _ k

  update_user_role-Keeps :
      (env : Env) (actor : User) (user_id : ℕ) (role : RoleEnum) (d : Db)
      → IsSynced d
      → Ends Keeps (update_user_role display_name cfg text env actor user_id role) d
  unfolding update_user_role
  update_user_role-Keeps env actor user_id role d h =
      Ends-raise_if _ _ _ (λ _. h)
        λ _. Ends-gets _ _ (
          Ends-or_raise _ _ _ (λ _. h)
            λ known _. Ends-gets _ _ (
              Ends-or_raise _ _ _ (λ _. h)
                λ user found.
                  Ends-raise_if _ _ _ (λ _. h)
                    λ _.
                      Ends-raise_if _ _ _ (λ _. h)
                        λ _. Ends-gets _ _ (
                          Ends-if _ _ _ (λ _. Ends-pure user h)
                            λ _.
                              set_user_role-Keeps display_name env user actor.id d
                                (find_own user_key user_id user d.users found) h known)))

  active-Keeps :
      (env : Env) (actor : User) (is_active : Bool) (user_id : ℕ) (d : Db)
      → IsSynced d
      → (user : User) → find user_key user_id d.users ≡ some user
      → Ends Keeps (set_user_active display_name env user is_active actor.id) d
  active-Keeps env actor is_active user_id d h user found =
      set_user_active-Keeps display_name env user actor.id d
        (find_own user_key user_id user d.users found) h is_active

  -- The join finds the profile and the account under one key.
  teacher_of_parts :
      (o : Option TeacherProfile) (a : Option User) (p : TeacherProfile) (u : User)
      → teacher_of o a ≡ some (p, u)
      → (o ≡ some p) × (a ≡ some u)
  teacher_of_parts o a p u h = ground arith

  resolve_inactive :
      (u : User) → resolve_teacher_profile_status (with_active false u) ≡ TeacherStatusEnum.disabled
  resolve_inactive u = ground arith

  or_raise-Keeps :
      {A : Type 0} (o : Option A) (e : Error) (d : Db) → IsSynced d → Ends Keeps (or_raise o e) d
  unfolding ◌>>=◌
  or_raise-Keeps none e d h = record { at = h }
  or_raise-Keeps (some a) e d h = record { at = h }

  disabled-IsSynced :
      (p : TeacherProfile) (u : User) (id : ℕ) (d : Db)
      → IsSynced d
      → find profile_key id d.teacher_profiles ≡ some p
      → find user_key id d.users ≡ some u
      → (k : ℕ)
      → IsSyncedAt
          (save user_key (with_active false u) d.users)
          (save profile_key (under TeacherStatusEnum.disabled p) d.teacher_profiles)
          k
  disabled-IsSynced p u id d h fp fu =
      let v = with_active false u in
      let own : u.id ≡ p.user_id =
        key-find user_key id u d.users fu ∙ sym (key-find profile_key id p d.teacher_profiles fp) in
      let saved = find-save_self user_key v u d.users (find_own user_key id u d.users fu) in
      subst
        (λ st.
          (k : ℕ)
          → IsSyncedAt (save user_key v d.users) (save profile_key (under st p) d.teacher_profiles)
              k)
        (resolve_inactive u)
        (saved-IsSynced v p (save user_key v d.users) d.teacher_profiles
          (subst (λ k. IsSyncedBut k (save user_key v d.users) d.teacher_profiles) own
            (saved_user-IsSyncedBut v d h))
          (subst (λ k. find user_key k (save user_key v d.users) ≡ some v) own saved)
          (find_own profile_key id p d.teacher_profiles fp))

  disable_teacher-Keeps :
      (actor : User) (teacher_id : ℕ) (d : Db)
      → IsSynced d
      → Ends Keeps (disable_teacher actor teacher_id) d
  unfolding disable_teacher Repository.disable_teacher
  disable_teacher-Keeps actor teacher_id d h =
      Ends-raise_if _ _ _ (λ _. h)
        λ _.
          Ends-bind _ _ Keeps
            (Ends-gets _ _ (
              Ends-if_found _ _ _ (λ _. Ends-pure none h)
                λ pu joined.
                  let (fp, fu) =
                    teacher_of_parts (find profile_key teacher_id d.teacher_profiles)
                      (find user_key teacher_id d.users) pu.0 pu.1 joined in
                  Ends-modify _ _ (
                    Ends-modify _ _ (
                      Ends-modify _ _
                        (Ends-pure _ (disabled-IsSynced pu.0 pu.1 teacher_id d h fp fu))))))
            (λ e d' k. k) λ item d' k. or_raise-Keeps item _ d' k

  perform-Keeps :
      (env : Env) (actor : User) (call : Call) (d : Db)
      → IsSynced d
      → Ends Keeps (perform env actor call) d
  unfolding activate_user deactivate_user
  perform-Keeps env actor (change_role user_id role) d h =
      done _ d (update_user_role-Keeps env actor user_id role d h)
  perform-Keeps env actor (activate user_id) d h = done _ d (
      Ends-raise_if _ _ _ (λ _. h)
        λ _. Ends-gets _ _ (
          Ends-or_raise _ _ _ (λ _. h)
            λ user found. active-Keeps env actor true user_id d h user found))
  perform-Keeps env actor (deactivate user_id) d h = done _ d (
      Ends-raise_if _ _ _ (λ _. h)
        λ _. Ends-gets _ _ (
          Ends-or_raise _ _ _ (λ _. h)
            λ user found.
              Ends-raise_if _ _ _ (λ _. h)
                λ _. active-Keeps env actor false user_id d h user found))
  perform-Keeps env actor (disable teacher_id) d h =
      done _ d (disable_teacher-Keeps actor teacher_id d h)

  kept-closed :
      (r : Result (Unit {0})) (d d' : Db) → IsSynced d → IsSynced d' → IsSynced (close r d d').1
  kept-closed (ok u) d d' h k = k
  kept-closed (err e) d d' h k = h

  -- The calls, one request after the other.
  unfoldable pub serve : List (Env × User × Call) → Db → Db
  serve [] d = d
  serve ((env, actor, call) ∷ calls) d = serve calls (request (perform env actor call) d).1

  -- If each teacher profile has the status that its account gives it, ACTIVE for an active teacher and
  -- DISABLED for anyone else, it still has after any calls, in any order, that change roles, activate and
  -- deactivate accounts and disable teachers.
  pub serve-IsSynced :
      (calls : List (Env × User × Call)) (d : Db) → IsSynced d → IsSynced (serve calls d)
  unfolding serve request
  serve-IsSynced [] d h = h
  serve-IsSynced ((env, actor, call) ∷ calls) d h = serve-IsSynced calls _ (
      kept-closed (perform env actor call d).0 d (perform env actor call d).1 h
        (perform-Keeps env actor call d h).at)
