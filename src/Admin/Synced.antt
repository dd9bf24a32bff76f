-- ===== src/Admin/Synced.antt =====
-- A teacher profile's status follows its account.
use guitar_online.Base.{
  ℕ, ◌≡◌, ◌≢◌, refl, sym, subst, ap, ◌∙◌, inl, inr, true, false, Bool, none, some, List, ◌∷◌, arith,
  String, Bool-cases, ==→eq, ==→ne, ◌==◌, if◌then◌else◌,
}
use guitar_online.Base.Table.{find, save, find-save_self, find-save_ne, key-find, find_own}
use guitar_online.Store.Enums.{RoleEnum, TeacherStatusEnum, is_teacher}
use guitar_online.Store.Rows.{User, TeacherProfile, user_key, profile_key}
use guitar_online.Store.Session.{Db, Env, Result}
use guitar_online.Store.Ends.{
  Ends, Ends-pure, Ends-if, Ends-if_found, Ends-gets, Ends-modify, Ends-bind,
}
use guitar_online.Admin.Repository.{
  resolve_teacher_profile_status, under, new_profile, sync_found, sync_missing,
  sync_teacher_profile_state, with_role, with_active, set_user_role, set_user_active,
}

-- The profile of the user under a key has the status that the account gives it.
abbrev pub IsSyncedAt : List User → List TeacherProfile → ℕ → Type 0
IsSyncedAt users profiles id =
    (u : User) (p : TeacherProfile)
    → find user_key id users ≡ some u
    → find profile_key id profiles ≡ some p
    → p.status ≡ resolve_teacher_profile_status u

abbrev pub IsSynced : Db → Type 0
IsSynced d = (id : ℕ) → IsSyncedAt d.users d.teacher_profiles id

module _ (u : User) (users : List User) (profiles : List TeacherProfile) where
  -- A write under one key leaves the others in step.
  synced_elsewhere :
      (p : TeacherProfile) (id : ℕ)
      → p.user_id ≢ id
      → IsSyncedAt users profiles id
      → IsSyncedAt users (save profile_key p profiles) id
  synced_elsewhere p id other h v q fv fq =
      h v q fv (sym (find-save_ne profile_key id p profiles other) ∙ fq)

  synced_here :
      (p : TeacherProfile)
      → find user_key p.user_id users ≡ some u
      → find profile_key p.user_id profiles ≡ some p
      → IsSyncedAt users
          (save profile_key (under (resolve_teacher_profile_status u) p) profiles)
          p.user_id
  synced_here p fu fp v q fv fq =
      let saved =
        find-save_self profile_key (under (resolve_teacher_profile_status u) p) p profiles fp in
      let same : v ≡ u = ground (arith, fu, fv) in
      let hit : q ≡ under (resolve_teacher_profile_status u) p = ground (arith, saved, fq) in
      rw (hit, same) refl

-- In step but for one key.
abbrev pub IsSyncedBut : ℕ → List User → List TeacherProfile → Type 0
IsSyncedBut id users profiles = (k : ℕ) → id ≢ k → IsSyncedAt users profiles k

pub saved-IsSynced :
    (u : User) (p : TeacherProfile) (users : List User) (profiles : List TeacherProfile)
    → IsSyncedBut p.user_id users profiles
    → find user_key p.user_id users ≡ some u
    → find profile_key p.user_id profiles ≡ some p
    → (id : ℕ)
    → IsSyncedAt users (save profile_key (under (resolve_teacher_profile_status u) p) profiles) id
saved-IsSynced u p users profiles h fu fp id = elim (Bool-cases (p.user_id == id)) [
  | inl hit ↦ rw (← ==→eq p.user_id id hit) (synced_here u users profiles p fu fp)
  | inr miss ↦
      synced_elsewhere u users profiles (under (resolve_teacher_profile_status u) p) id
        (==→ne _ _ miss) (h id (==→ne _ _ miss))
]

pub saved_user-IsSyncedBut :
    (u : User) (d : Db) → IsSynced d → IsSyncedBut u.id (save user_key u d.users) d.teacher_profiles
saved_user-IsSyncedBut u d h k other v p fv fp =
    h k v p (sym (find-save_ne user_key k u d.users other) ∙ fv) fp

-- Whether a call returns or raises.
abbrev pub Keeps : {A : Type 0} → Result A → Db → Type 0
Keeps r d' = IsSynced d'

status_of :
    (u : User)
    → (if is_teacher u.role then resolve_teacher_profile_status u else TeacherStatusEnum.disabled)
      ≡ resolve_teacher_profile_status u
status_of u = elim (Bool-cases (is_teacher u.role)) [ inl h ↦ rw h refl | inr h ↦ rw h refl ]

module _ (u : User) (d : Db) (others : IsSyncedBut u.id d.users d.teacher_profiles)
    (account : find user_key u.id d.users ≡ some u) where
  sync_found-Keeps :
      (p : TeacherProfile)
      → find profile_key u.id d.teacher_profiles ≡ some p
      → Ends Keeps (sync_found u p) d
  sync_found-Keeps p found =
      let own : p.user_id ≡ u.id = key-find profile_key u.id p d.teacher_profiles found in
      Ends-modify _ _ (
        Ends-pure _ (
          rw (status_of u) (
            saved-IsSynced u p d.users d.teacher_profiles
              (subst (λ k. IsSyncedBut k d.users d.teacher_profiles) (sym own) others)
              (subst (λ k. find user_key k d.users ≡ some u) (sym own) account)
              (find_own profile_key u.id p d.teacher_profiles found))))

  missing-IsSynced : find profile_key u.id d.teacher_profiles ≡ none → IsSynced d
  missing-IsSynced missing id = elim (Bool-cases (u.id == id)) [
    | inl hit ↦ λ v p fv fp. absurd (
        ground (
          arith,
          missing,
          fp,
          ==→eq u.id id hit,
          ap (λ k. find profile_key k d.teacher_profiles) (==→eq u.id id hit),
        ))
    | inr miss ↦ others id (==→ne _ _ miss)
  ]

  added-IsSyncedBut :
      (p : TeacherProfile) → p.user_id ≡ u.id → IsSyncedBut u.id d.users (p ∷ d.teacher_profiles)
  unfolding find
  added-IsSyncedBut p own k other v q fv fq = others k other v q fv (ground (arith, own))

  sync_missing-Keeps :
      (display_name : String → String) (id : ℕ) (create : Bool)
      → find profile_key u.id d.teacher_profiles ≡ none
      → Ends Keeps (sync_missing display_name id u create) d
  unfolding find
  sync_missing-Keeps display_name id create missing =
      Ends-if (is_teacher u.role) _ _
        (λ teaches.
          Ends-if create _ _
            (λ _.
              let p = new_profile id u.id (display_name u.email) in
              Ends-modify _ _ (
                Ends-modify _ _ (
                  Ends-pure _ (
                    saved-IsSynced u p d.users (p ∷ d.teacher_profiles) (added-IsSyncedBut p refl)
                      account (ground arith)))))
            (λ _. Ends-pure _ (missing-IsSynced missing)))
        (λ _. Ends-pure _ (missing-IsSynced missing))

  sync-Keeps :
      (display_name : String → String) (id : ℕ) (create : Bool)
      → Ends Keeps (sync_teacher_profile_state display_name id u create) d
  unfolding sync_teacher_profile_state
  sync-Keeps display_name id create = Ends-gets _ _ (
      Ends-if_found _ _ _ (λ missing. sync_missing-Keeps display_name id create missing)
        λ p found. sync_found-Keeps p found)

-- After the account's row is saved.
module _ (display_name : String → String) (env : Env) (user : User) (admin_id : ℕ) (d : Db)
    (found : find user_key user.id d.users ≡ some user) (synced : IsSynced d) where
  pub set_user_role-Keeps :
      (role : RoleEnum) → Ends Keeps (set_user_role display_name env user role admin_id) d
  unfolding set_user_role
  set_user_role-Keeps role =
      let u = with_role role user in
      Ends-modify _ _ (
        Ends-bind _ _ Keeps
          (sync-Keeps u (record d { users = save user_key u d.users })
            (saved_user-IsSyncedBut u d synced) (find-save_self user_key u user d.users found)
            display_name (env.uuid4 0) true)
          (λ e d' k. k) λ sync d' k. Ends-modify _ _ (Ends-pure _ k))

  pub set_user_active-Keeps :
      (is_active : Bool) → Ends Keeps (set_user_active display_name env user is_active admin_id) d
  unfolding set_user_active
  set_user_active-Keeps is_active =
      let u = with_active is_active user in
      Ends-modify _ _ (
        Ends-bind _ _ Keeps
          (sync-Keeps u (record d { users = save user_key u d.users })
            (saved_user-IsSyncedBut u d synced) (find-save_self user_key u user d.users found)
            display_name (env.uuid4 0) false)
          (λ e d' k. k) λ sync d' k. Ends-modify _ _ (Ends-pure _ k))
