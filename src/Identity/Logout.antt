-- ===== src/Identity/Logout.antt =====
-- A logout ends the use of a refresh token.
use text.Mathlib.Text.{◌==◌ as same_text}
use guitar_online.Base.{ℕ, ◌≡◌, inl, inr, ap, not, some, arith, Option-cases}
use guitar_online.Base.Table.{find, save, find-save_self, find_own, refers}
use guitar_online.Store.Rows.{token_key}
use guitar_online.Store.Settings.{AuthSettings}
use guitar_online.Store.Session.{Db, Env, Result, ok, err}
use guitar_online.Store.Ends.{Ends, Ends-known, Ends-pure, Ends-if, Ends-if_found}
use guitar_online.Identity.Security.{Crypto, IsCrypto, Claims}
use guitar_online.Identity.Queries.{revoked, with_tokens, revoke_lem, revoke_missing}
use guitar_online.Identity.Repository
use guitar_online.Identity.Service.{refresh_tokens, revoke_refresh_token}
use guitar_online.Identity.Rotation.{IsRefused, spent-IsRefused, same_claims, saved-IsSpent}

module _ {Token : Type 0} (cfg : AuthSettings) (crypto : Crypto Token) where
  -- What a logout means for a later refresh.
  abbrev pub IsLoggedOut : Env → Token → Result (Unit {0}) → Db → Type 0
  IsLoggedOut later token (ok u) d' = Ends (IsRefused d') (refresh_tokens cfg crypto later token) d'
  IsLoggedOut later token (err e) d' = ⊥

  revoke_row-IsLoggedOut :
      (law : IsCrypto crypto) (now at : ℕ) (later : Env) (token : Token) (c : Claims) (id : ℕ)
      (d : Db)
      → crypto.decode now token ≡ some c
      → c.jti ≡ some id
      → Ends (IsLoggedOut later token) (Repository.revoke_refresh_token id at) d
  revoke_row-IsLoggedOut law now at later token c id d read jti =
      elim (Option-cases (find token_key id d.refresh_tokens)) [
        | inl missing ↦ Ends-known _ (ok tt) d (revoke_missing id at d missing) (
            spent-IsRefused cfg crypto later token d (λ late b other t again _ jti' found.
              let same = same_claims cfg crypto law now late token c b read again in
              absurd (
                ground (
                  arith,
                  missing,
                  found,
                  ap (λ k. find token_key k d.refresh_tokens),
                  jti,
                  jti',
                  same,
                ))))
        | inr (t, found) ↦
            let d' = with_tokens (save token_key (revoked at t) d.refresh_tokens) d in
            let own = find_own token_key id t d.refresh_tokens found in
            Ends-known _ (ok tt) d' (revoke_lem id at t d found) (
              spent-IsRefused cfg crypto later token d' (
                saved-IsSpent cfg crypto law now at token c t d' read
                  (refers token_key c.jti id t d.refresh_tokens jti found)
                  (find-save_self token_key (revoked at t) t d.refresh_tokens own)))
      ]

  -- Where the token library keeps its promises and the token can be read at the logout, the logout returns,
  -- and any later refresh with the token raises and changes nothing.
  pub revoke_refresh_token-IsLoggedOut :
      (law : IsCrypto crypto) (env later : Env) (token : Token) (c : Claims) (d : Db)
      → crypto.decode (env.clock 0) token ≡ some c
      → Ends (IsLoggedOut later token) (revoke_refresh_token crypto env token) d
  unfolding revoke_refresh_token
  revoke_refresh_token-IsLoggedOut law env later token c d read =
      let now = env.clock 0 in
      Ends-if_found _ _ _ (λ missing. absurd (ground (arith, missing, read)))
        λ b again.
          Ends-if (not (same_text b.token_type "refresh")) _ _
            (λ other. Ends-pure tt (
              spent-IsRefused cfg crypto later token d (λ late x id t says fits jti found. absurd (
                ground
                  (arith, other, fits, same_claims cfg crypto law now late token b x again says)))))
            λ fits.
              Ends-if_found b.jti _ _
                (λ none_there. Ends-pure tt (
                  spent-IsRefused cfg crypto later token d (λ late x id t says _ jti found. absurd (
                    ground (
                      arith,
                      none_there,
                      jti,
                      same_claims cfg crypto law now late token b x again says,
                    )))))
                λ id jti. revoke_row-IsLoggedOut law now (env.clock 1) later token b id d again jti
