-- ===== src/Identity/Rotation.antt =====
-- A refresh token serves once.
use text.Mathlib.Text.{◌==◌ as same_text}
use guitar_online.Base.{
  ℕ, ◌+◌, ◌*◌, ◌≡◌, inl, inr, refl, ap, true, Bool, not, none, some, List, ◌∷◌, arith, tally,
}
use guitar_online.Base.Table.{find, save, find-save_self, tally-save, find_own, refers}
use guitar_online.Store.Rows.{RefreshToken, token_key, day}
use guitar_online.Store.Settings.{AuthSettings}
use guitar_online.Store.Session.{Db, Env, Result, ok, err}
use guitar_online.Store.Ends.{Ends, Ends-pure, Ends-gets, Ends-or_raise, Ends-raise_if, Ends-mono}
use guitar_online.Identity.Security.{Crypto, IsCrypto, Claims}
use guitar_online.Identity.Queries.{
  new_token, revoked, with_tokens, Ends-create_refresh_token, Ends-revoke_refresh_token,
}
use guitar_online.Identity.Service.{TokenPair, is_revoked, refresh_tokens}

-- A refused call changes nothing.
abbrev pub IsRefused : {A : Type 0} → Db → Result A → Db → Type 0
IsRefused d (ok a) d' = ⊥
IsRefused d (err e) d' = d' ≡ d

-- A token that the session has not revoked.
abbrev pub is_live : RefreshToken → Bool
is_live t = not (is_revoked t)

module _ {Token : Type 0} (cfg : AuthSettings) (crypto : Crypto Token) where
  -- Whenever it can be read, the row under its `jti` is revoked.
  abbrev pub IsSpent : Token → Db → Type 0
  IsSpent token d =
      (later : ℕ) (c : Claims) (id : ℕ) (t : RefreshToken)
      → crypto.decode later token ≡ some c
      → same_text c.token_type "refresh" ≡ true
      → c.jti ≡ some id
      → find token_key id d.refresh_tokens ≡ some t
      → is_revoked t ≡ true

  pub spent-IsRefused :
      (env : Env) (token : Token) (d : Db)
      → IsSpent token d
      → Ends (IsRefused d) (refresh_tokens cfg crypto env token) d
  unfolding refresh_tokens
  spent-IsRefused env token d spent =
      Ends-or_raise _ _ _ (λ _. refl)
        λ c read.
          Ends-raise_if _ _ _ (λ _. refl)
            λ fits.
              Ends-or_raise _ _ _ (λ _. refl)
                λ id jti.
                  Ends-or_raise _ _ _ (λ _. refl)
                    λ subject _. Ends-gets _ _ (
                      Ends-or_raise _ _ _ (λ _. refl)
                        λ t found.
                          Ends-raise_if _ _ _ (λ _. refl)
                            λ alive. absurd (
                              ground (
                                arith,
                                alive,
                                spent (env.clock 0) c id t read (ground (arith, fits)) jti found,
                              )))

  -- Whoever has read the token once knows what it says.
  pub same_claims :
      (law : IsCrypto crypto) (now later : ℕ) (token : Token) (c b : Claims)
      → crypto.decode now token ≡ some c
      → crypto.decode later token ≡ some b
      → b ≡ c
  same_claims law now later token c b read again = elim (law.decode_stable now later token c read) [
    | inl expired ↦ absurd (ground (arith, expired, again))
    | inr same ↦ ground (arith, same, again)
  ]

  pub saved-IsSpent :
      (law : IsCrypto crypto) (now revoked_at : ℕ) (token : Token) (c : Claims) (t : RefreshToken)
      (d : Db)
      → crypto.decode now token ≡ some c
      → c.jti ≡ some t.token_id
      → find token_key t.token_id d.refresh_tokens ≡ some (revoked revoked_at t)
      → IsSpent token d
  saved-IsSpent law now revoked_at token c t d read jti found later b id u again fits jti' found' =
      let same = same_claims law now later token c b read again in
      let own : id ≡ t.token_id = ground (arith, same, jti, jti') in
      let hit : u ≡ revoked revoked_at t = ground (arith, own, found, found') in rw hit refl

  -- The work of a refresh that returns: a live row is revoked and a row with a new key is added.
  abbrev IsRotated : Env → Token → Db → Result (TokenPair Token) → Db → Type 0
  IsRotated env token d (ok pair) d' =
      (c : Claims) × (t : RefreshToken) × (now user_id token_id expires_at : ℕ) × (crypto.decode
          (env.clock 0) token
        ≡ some c)
      × (c.jti ≡ some t.token_id)
      × (find token_key t.token_id d.refresh_tokens ≡ some t)
      × (is_live t ≡ true)
      × (let rest = save token_key (revoked now t) d.refresh_tokens in
          (find token_key token_id rest ≡ none)
          × (d' ≡ with_tokens (new_token user_id token_id expires_at ∷ rest) d))
  IsRotated env token d (err e) d' = Unit

  refresh_tokens-IsRotated :
      (env : Env) (token : Token) (d : Db)
      → Ends (IsRotated env token d) (refresh_tokens cfg crypto env token) d
  unfolding refresh_tokens
  refresh_tokens-IsRotated env token d =
      Ends-or_raise _ _ _ (λ _. tt)
        λ c read.
          Ends-raise_if _ _ _ (λ _. tt)
            λ _.
              Ends-or_raise _ _ _ (λ _. tt)
                λ id jti.
                  Ends-or_raise _ _ _ (λ _. tt)
                    λ subject _. Ends-gets _ _ (
                      Ends-or_raise _ _ _ (λ _. tt)
                        λ t found.
                          Ends-raise_if _ _ _ (λ _. tt)
                            λ alive. Ends-revoke_refresh_token id (env.clock 2) t _ found (
                              Ends-gets _ _ (
                                Ends-or_raise _ _ _ (λ _. tt)
                                  λ user _.
                                    Ends-raise_if _ _ _ (λ _. tt)
                                      λ _. Ends-create_refresh_token _ _ _ _ tt λ fresh.
                                        Ends-pure _ (
                                          c,
                                          t,
                                          env.clock 2,
                                          user.id,
                                          env.uuid4 0,
                                          env.clock 5 + cfg.refresh_token_expire_days * day,
                                          read,
                                          refers token_key c.jti id t d.refresh_tokens jti found,
                                          find_own token_key id t d.refresh_tokens found,
                                          ground arith,
                                          (fresh, refl),
                                        ))))

  find_behind :
      (k : ℕ) (r t : RefreshToken) (rows : List RefreshToken)
      → find token_key r.token_id rows ≡ none
      → find token_key k rows ≡ some t
      → find token_key k (r ∷ rows) ≡ some t
  unfolding find
  find_behind k r t rows fresh found = ground (arith, ap (λ k. find token_key k rows))

  -- What a refresh that returns means for a later one.
  abbrev pub IsLast : Env → Token → Result (TokenPair Token) → Db → Type 0
  IsLast later token (ok pair) d' = Ends (IsRefused d') (refresh_tokens cfg crypto later token) d'
  IsLast later token (err e) d' = Unit

  Rotated-IsLast :
      (law : IsCrypto crypto) (env later : Env) (token : Token) (d d' : Db)
      (r : Result (TokenPair Token))
      → IsRotated env token d r d'
      → IsLast later token r d'
  Rotated-IsLast law env later token d d' (err e) h = tt
  Rotated-IsLast law env later token d d' (ok pair)
        (c, t, now, user_id, token_id, expires_at, read, jti, found, live, (fresh, same)) =
      let rest = save token_key (revoked now t) d.refresh_tokens in
      let saved = find-save_self token_key (revoked now t) t d.refresh_tokens found in
      spent-IsRefused later token d' (
        saved-IsSpent law (env.clock 0) now token c t d' read jti (
          rw same (
            find_behind t.token_id (new_token user_id token_id expires_at) (revoked now t) rest
              fresh saved)))

  -- Where the token library keeps its promises, a refresh token serves once: after a refresh that has
  -- returned, any later refresh with the same token raises and changes nothing.
  pub refresh_tokens-IsLast :
      (law : IsCrypto crypto) (env later : Env) (token : Token) (d : Db)
      → Ends (IsLast later token) (refresh_tokens cfg crypto env token) d
  refresh_tokens-IsLast law env later token d =
      Ends-mono _ _ _ (λ r d'. Rotated-IsLast law env later token d d' r)
        (refresh_tokens-IsRotated env token d)

  -- The live tokens are as many as before.
  abbrev pub IsBalanced : Db → Result (TokenPair Token) → Db → Type 0
  IsBalanced d (ok pair) d' = tally is_live d'.refresh_tokens ≡ tally is_live d.refresh_tokens
  IsBalanced d (err e) d' = Unit

  Rotated-IsBalanced :
      (env : Env) (token : Token) (d d' : Db) (r : Result (TokenPair Token))
      → IsRotated env token d r d'
      → IsBalanced d r d'
  unfolding tally
  Rotated-IsBalanced env token d d' (err e) h = tt
  Rotated-IsBalanced env token d d' (ok pair)
        (c, t, now, user_id, token_id, expires_at, read, jti, found, live, (fresh, same)) =
      rw same (
        ground (arith, live, tally-save token_key is_live (revoked now t) t d.refresh_tokens found))

  -- A refresh that returns leaves as many live refresh tokens as there were.
  pub refresh_tokens-IsBalanced :
      (env : Env) (token : Token) (d : Db)
      → Ends (IsBalanced d) (refresh_tokens cfg crypto env token) d
  refresh_tokens-IsBalanced env token d =
      Ends-mono _ _ _ (λ r d'. Rotated-IsBalanced env token d d' r)
        (refresh_tokens-IsRotated env token d)
