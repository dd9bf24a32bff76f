-- ===== src/Identity/Queries.antt =====
-- The rules for the writes of the repository along a `do` block.
use guitar_online.Base.{ℕ, ◌≡◌, refl, false, Option, none, some, List, ◌∷◌, arith}
use guitar_online.Base.Table.{find, save}
use guitar_online.Store.Rows.{RefreshToken, token_key}
use guitar_online.Store.Session.{Db, integrity, Result, ok, err, Exec, ◌>>=◌}
use guitar_online.Store.Ends.{
  Ends, Ends-assoc, Ends-gets, Ends-raise_if, Ends-modify, Ends-run, Ends-pass,
}
use guitar_online.Identity.Repository.{is_token, create_refresh_token, revoke_refresh_token}

abbrev pub new_token : ℕ → ℕ → ℕ → RefreshToken
new_token user_id token_id expires_at = record {
  user_id = user_id;
  token_id = token_id;
  expires_at = expires_at;
  revoked_at = none;
}

abbrev pub revoked : ℕ → RefreshToken → RefreshToken
revoked now t = record t { revoked_at = some now }

abbrev pub with_tokens : List RefreshToken → Db → Db
with_tokens tokens d = record d { refresh_tokens = tokens }

is_token-none : (o : Option RefreshToken) → is_token o ≡ false → o ≡ none
is_token-none o h = ground arith

pub revoke_lem :
    (token_id now : ℕ) (t : RefreshToken) (d : Db)
    → find token_key token_id d.refresh_tokens ≡ some t
    → revoke_refresh_token token_id now d
      ≡ (ok tt, with_tokens (save token_key (revoked now t) d.refresh_tokens) d)
unfolding revoke_refresh_token ◌>>=◌
revoke_lem token_id now t d found = rw found refl

pub revoke_missing :
    (token_id now : ℕ) (d : Db)
    → find token_key token_id d.refresh_tokens ≡ none
    → revoke_refresh_token token_id now d ≡ (ok tt, d)
unfolding revoke_refresh_token ◌>>=◌
revoke_missing token_id now d found = rw found refl

module _ {B : Type 0} {P : Result B → Db → Type 0} {d : Db} where
  pub Ends-create_refresh_token :
      (user_id token_id expires_at : ℕ) (k : Unit {0} → Exec B)
      → P (err integrity) d
      → (find token_key token_id d.refresh_tokens ≡ none
          → Ends P
              (k tt)
              (with_tokens (new_token user_id token_id expires_at ∷ d.refresh_tokens) d))
      → Ends P (create_refresh_token user_id token_id expires_at >>= k) d
  unfolding create_refresh_token
  Ends-create_refresh_token user_id token_id expires_at k bad good = Ends-assoc _ _ _ _ (
      Ends-gets _ _ (
        Ends-assoc _ _ _ _
          (Ends-raise_if _ _ _ (λ _. bad) λ free. Ends-modify _ _ (good (is_token-none _ free)))))

  pub Ends-revoke_refresh_token :
      (token_id now : ℕ) (t : RefreshToken) (k : Unit {0} → Exec B)
      → find token_key token_id d.refresh_tokens ≡ some t
      → Ends P (k tt) (with_tokens (save token_key (revoked now t) d.refresh_tokens) d)
      → Ends P (revoke_refresh_token token_id now >>= k) d
  Ends-revoke_refresh_token token_id now t k found h =
      Ends-run _ _ tt _ (revoke_lem token_id now t d found) h

  -- With a key that is known to be new.
  pub Ends-create_new_token :
      (user_id token_id expires_at : ℕ) (k : Unit {0} → Exec B)
      → find token_key token_id d.refresh_tokens ≡ none
      → Ends P (k tt) (with_tokens (new_token user_id token_id expires_at ∷ d.refresh_tokens) d)
      → Ends P (create_refresh_token user_id token_id expires_at >>= k) d
  unfolding create_refresh_token
  Ends-create_new_token user_id token_id expires_at k fresh good =
      Ends-assoc _ _ _ _ (
        Ends-gets _ _ (Ends-assoc _ _ _ _ (Ends-pass _ _ _ (rw fresh refl) (Ends-modify _ _ good))))
