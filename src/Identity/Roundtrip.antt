-- ===== src/Identity/Roundtrip.antt =====
-- What a login issues is accepted.
use text.Mathlib.Text.{◌==◌ as same_text}
use text.Mathlib.TextEquality.{eq_iff}
use guitar_online.Base.{
  ℕ, ◌+◌, ◌*◌, ◌≤◌, ◌≡◌, refl, ap, true, Bool, none, some, List, [], ◌∷◌, arith, String,
  first_match, Bool-cases, inl, inr,
}
use guitar_online.Base.Table.{find, IsKeyed}
use guitar_online.Store.Rows.{User, token_key, user_key, minute}
use guitar_online.Store.Settings.{AuthSettings}
use guitar_online.Store.Session.{Db, Env, Result, ok, err, ◌>>=◌}
use guitar_online.Store.Ends.{
  Ends, Ends-pure, Ends-gets, Ends-or_raise, Ends-raise_if, Ends-given, Ends-pass, Ends-modify,
}
use guitar_online.Identity.Security.{Crypto, IsCrypto, second, access_claims}
use guitar_online.Identity.Repository.{has_email, new_user}
use guitar_online.Identity.Queries.{Ends-create_refresh_token, Ends-create_new_token}
use guitar_online.Identity.Service.{
  TokenPair, LoginRequest, UserCreate, login, register, get_user_from_access_token,
}

-- A row that a query finds is found under its key.
find-first_match :
    (p : User → Bool) (u : User) (rows : List User)
    → IsKeyed user_key rows
    → first_match p rows ≡ some u
    → (find user_key u.id rows ≡ some u) × (p u ≡ true)
unfolding find first_match
find-first_match p u [] k h = absurd (ground (arith, h))
find-first_match p u (x ∷ rows) k h = elim (Bool-cases (p x)) [
  | inl hit ↦ ground (arith, h, hit)
  | inr miss ↦
      let (found, passes) = find-first_match p u rows k.1 (ground (arith, h, miss)) in
      (ground (arith, found, k.0, ap (λ k. find user_key k rows)), passes)
]

module _ {Token : Type 0} (cfg : AuthSettings) (crypto : Crypto Token) (law : IsCrypto crypto) where
  -- The token is accepted as this user's, and nothing changes.
  abbrev pub IsAccepted : ℕ → Token → User → Db → Type 0
  IsAccepted now token u d = get_user_from_access_token crypto now token d ≡ (ok u, d)

  IsAccepted-created :
      (now exp : ℕ) (u : User) (d : Db)
      → now + second ≤ exp
      → find user_key u.id d.users ≡ some u
      → u.is_active ≡ true
      → IsAccepted now (crypto.encode exp (access_claims cfg crypto u.id u.role)) u d
  unfolding get_user_from_access_token ◌>>=◌
  IsAccepted-created now exp u d early found active =
      rw (law.decode-encode now exp (access_claims cfg crypto u.id u.role) early, found, active)
        refl

  abbrev pub IsLogin : LoginRequest → ℕ → Result (TokenPair Token) → Db → Type 0
  IsLogin payload now (ok pair) d' =
      (u : User) × (u.email ≡ payload.email) × IsAccepted now pair.access_token u d'
  IsLogin payload now (err e) d' = Unit

  -- Where the token library keeps its promises and the users' keys are unique, the access token of a login that returns is accepted as
  -- that of a user with the email of the login, until a second before it expires.
  pub login-IsLogin :
      (env : Env) (payload : LoginRequest) (now : ℕ) (d : Db)
      → IsKeyed user_key d.users
      → now + second ≤ env.clock 0 + cfg.access_token_expire_minutes * minute
      → Ends (IsLogin payload now) (login cfg crypto env payload) d
  unfolding login
  login-IsLogin env payload now d keyed early = Ends-gets _ _ (
      Ends-or_raise _ _ _ (λ _. tt)
        λ u hit.
          let (found, passes) = find-first_match (has_email payload.email) u d.users keyed hit in
          Ends-raise_if _ _ _ (λ _. tt)
            λ _.
              Ends-raise_if _ _ _ (λ _. tt)
                λ active. Ends-create_refresh_token _ _ _ _ tt λ _. Ends-pure _ (
                  u,
                  (eq_iff u.email payload.email).0 passes,
                  IsAccepted-created now _ u _ early found (ground (arith, active)),
                ))

  -- What a registration means for a later login.
  abbrev pub IsWelcome : Env → UserCreate → Result User → Db → Type 0
  IsWelcome later payload (ok u) d' =
      Ends (λ r e. (pair : TokenPair Token) × (r ≡ ok pair))
        (login cfg crypto later (record { email = payload.email; password = payload.password })) d'
  IsWelcome later payload (err e) d' = Unit

  same_text_self : (s : String) → same_text s s ≡ true
  same_text_self s = (eq_iff s s).1 refl

  -- Where the password library keeps its promises, whoever has registered can log in: after a
  -- registration that has returned, a login with its email and password, whose token gets a new key, returns.
  pub register-IsWelcome :
      (default_full_name : String → String) (env later : Env) (payload : UserCreate) (d : Db)
      → find token_key (later.uuid4 0) d.refresh_tokens ≡ none
      → Ends (IsWelcome later payload) (register cfg crypto default_full_name env payload) d
  unfolding register login first_match
  register-IsWelcome default_full_name env later payload d fresh = Ends-gets _ _ (
      Ends-raise_if _ _ _ (λ _. tt)
        λ _.
          Ends-raise_if _ _ _ (λ _. tt)
            λ _. Ends-gets _ _ (
              Ends-or_raise _ _ _ (λ _. tt)
                λ role _.
                  let password_hash = crypto.hash (env.uuid4 1) payload.password in
                  let u =
                    new_user (env.uuid4 0) payload.email (default_full_name payload.email)
                      password_hash payload.timezone role in
                  Ends-modify _ _ (
                    Ends-pure _ (
                      Ends-gets _ _ (
                        Ends-given _ _ _ u (rw same_text_self refl) (
                          Ends-pass _ _ _ (rw law.verify-hash refl) (
                            Ends-pass _ _ _ refl
                              (Ends-create_new_token _ _ _ _ fresh (Ends-pure _ (_, refl))))))))))
