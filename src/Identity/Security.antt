-- ===== src/Identity/Security.antt =====
-- app/core/security.py. PyJWT and passlib are parameters.
use guitar_online.Base.{ℕ, ◌+◌, ◌*◌, ◌≤◌, ◌≡◌, ◌⊎◌, Bool, true, Option, none, some, String}
use guitar_online.Store.Enums.{RoleEnum}
use guitar_online.Store.Rows.{minute, day}
use guitar_online.Store.Settings.{AuthSettings}
use guitar_online.Store.Session.{Exec, http_exception, or_raise}

-- The payload of a token but its `exp`. `sub` and `jti` are texts of primary keys, which are
-- numbers here; a text that is empty is absent.
pub record Claims : Type 0 where
  pub sub : Option ℕ
  pub token_type : String
  pub jti : Option ℕ
  pub role : Option RoleEnum

-- `jwt.encode` and `jwt.decode` under the secret key: a token from its `exp` and its other claims,
-- and the claims of a token at a time, `none` for an InvalidTokenError. Tokens are only passed on, so
-- their type is a parameter. `hash` takes bcrypt's salt.
pub record Crypto (Token : Type 0) : Type 0 where
  pub encode : ℕ → Claims → Token
  pub decode : ℕ → Token → Option Claims
  pub hash : ℕ → String → String
  pub verify : String → String → Bool

abbrev pub second : ℕ
second = 1_000_000

-- What the libraries document. `exp` is cut down to seconds.
pub record IsCrypto {Token : Type 0} (crypto : Crypto Token) : Type 0 where
  -- A token is read back while it has not expired.
  pub decode-encode :
      (now exp : ℕ) (c : Claims)
      → now + second ≤ exp
      → crypto.decode now (crypto.encode exp c) ≡ some c
  -- A token that can be read says the same at any time, or has expired.
  pub decode_stable :
      (now later : ℕ) (token : Token) (c : Claims)
      → crypto.decode now token ≡ some c
      → (crypto.decode later token ≡ none) ⊎ (crypto.decode later token ≡ some c)
  pub verify-hash :
      (salt : ℕ) (password : String) → crypto.verify password (crypto.hash salt password) ≡ true

module _ {Token : Type 0} (cfg : AuthSettings) (crypto : Crypto Token) where
  abbrev pub access_claims : ℕ → RoleEnum → Claims
  access_claims subject role = record {
    sub = some subject;
    token_type = "access";
    jti = none;
    role = some role;
  }

  abbrev pub refresh_claims : ℕ → ℕ → RoleEnum → Claims
  refresh_claims subject token_id role = record {
    sub = some subject;
    token_type = "refresh";
    jti = some token_id;
    role = some role;
  }

  -- The first argument is the time, `datetime.now(UTC)`.
  abbrev pub create_token : ℕ → ℕ → Claims → Token
  create_token now expires_delta claims = crypto.encode (now + expires_delta) claims

  abbrev pub create_access_token : ℕ → ℕ → RoleEnum → Token
  create_access_token now subject role =
      create_token now (cfg.access_token_expire_minutes * minute) (access_claims subject role)

  abbrev pub create_refresh_token : ℕ → ℕ → ℕ → RoleEnum → Token
  create_refresh_token now subject token_id role =
      create_token now (cfg.refresh_token_expire_days * day) (refresh_claims subject token_id role)

-- The exception of `decode_token`.
abbrev pub decode_token : {Token : Type 0} → Crypto Token → ℕ → Token → Exec Claims
decode_token crypto now token =
    or_raise (crypto.decode now token) (http_exception 401 "Invalid token")
