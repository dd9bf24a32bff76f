-- ===== src/RateLimit/Client.antt =====
-- app/modules/identity/rate_limit.py: the limits on registrations, logins and refreshes. Python's
-- `ipaddress` and the methods of `str` that the module uses are a parameter.
use guitar_online.Base.{
  ℕ, Bool, true, false, not, ◌&&◌, Option, none, some, List, [], ◌∷◌, String, select, map, ◌==◌,
  if◌then◌else◌,
}
use text.Mathlib.Text.{◌==◌ as same_text}
use guitar_online.Store.Text.{is_nonempty}
use guitar_online.RateLimit.Window.{Answer, acquire}

-- `none` stands for a ValueError. An address is a number that it shares with its equals only.
pub record Library : Type 0 where
  pub strip : String → String
  -- `s.split(",")`, its first part apart
  pub split_first : String → String
  pub split_rest : String → List String
  -- `"/" in s`
  pub has_slash : String → Bool
  pub ip_address : String → Option ℕ
  -- `address in ip_network(s, strict=False)`
  pub in_network : ℕ → String → Option Bool

-- The value of a setting: None, a string, a collection, or anything else.
pub data RawValue : Type 0 where
  nothing : RawValue
  line : String → RawValue
  values : List String → RawValue
  other : RawValue

pub record Request : Type 0 where
  pub client_host : Option String
  pub x_forwarded_for : Option String

module _ (lib : Library) where
  abbrev pub stripped : List String → List String
  stripped parts = select is_nonempty (map lib.strip parts)

  unfoldable pub trusted_proxy_ips : RawValue → List String
  trusted_proxy_ips nothing = []
  trusted_proxy_ips (line s) = stripped (lib.split_first s ∷ lib.split_rest s)
  trusted_proxy_ips (values parts) = stripped parts
  trusted_proxy_ips other = []

  -- `client_ip in trusted_proxy_ips`
  unfoldable pub is_listed : String → List String → Bool
  is_listed client_ip [] = false
  is_listed client_ip (p ∷ rest) =
      let later = is_listed client_ip rest in if same_text p client_ip then true else later

  -- A ValueError goes on to the next proxy.
  abbrev pub or_false : Option Bool → Bool
  or_false none = false
  or_false (some b) = b

  abbrev pub same_address : ℕ → Option ℕ → Bool
  same_address client none = false
  same_address client (some address) = client == address

  -- The loop's body.
  abbrev pub matches : String → ℕ → String → Bool
  matches client_ip client proxy =
      let candidate = lib.strip proxy in
      if not (is_nonempty candidate)
      then false
      else if same_text candidate client_ip
      then false
      else if lib.has_slash candidate
      then or_false (lib.in_network client candidate)
      else same_address client (lib.ip_address candidate)

  unfoldable pub matches_any : String → ℕ → List String → Bool
  matches_any client_ip client [] = false
  matches_any client_ip client (p ∷ rest) =
      let later = matches_any client_ip client rest in
      if matches client_ip client p then true else later

  unfoldable pub is_trusted_proxy : String → List String → Bool
  is_trusted_proxy client_ip proxies =
      if is_listed client_ip proxies then true else elim (lib.ip_address client_ip) [
        | none ↦ false
        | some client ↦ matches_any client_ip client proxies
      ]

  -- `a or b`
  abbrev pub or_else : String → String → String
  or_else a b = if is_nonempty a then a else b

  abbrev pub host_of : Option String → String
  host_of none = "unknown"
  host_of (some host) = or_else host "unknown"

  abbrev pub forwarded_client : String → String → String
  forwarded_client client_ip forwarded_for =
      or_else (lib.strip (lib.split_first forwarded_for)) client_ip

  unfoldable pub resolve_client_ip : List String → Request → String
  resolve_client_ip proxies request =
      let client_ip = host_of request.client_host in
      elim request.x_forwarded_for [
        | none ↦ client_ip
        | some forwarded_for ↦
            if not (is_nonempty forwarded_for)
            then client_ip
            else if not (is_trusted_proxy client_ip proxies)
            then client_ip
            else forwarded_client client_ip forwarded_for
      ]

pub data Action : Type 0 where
  register login refresh : Action

-- The settings, with the window in ticks.
pub record Limits : Type 0 where
  pub auth_rate_limit_window : ℕ
  pub auth_rate_limit_register_requests : ℕ
  pub auth_rate_limit_login_requests : ℕ
  pub auth_rate_limit_refresh_requests : ℕ
  pub auth_rate_limit_trusted_proxy_ips : RawValue

abbrev pub max_requests : Limits → Action → ℕ
max_requests cfg register = cfg.auth_rate_limit_register_requests
max_requests cfg login = cfg.auth_rate_limit_login_requests
max_requests cfg refresh = cfg.auth_rate_limit_refresh_requests

-- `f"identity:{action}:{resolved_ip}"`
pub record Key : Type 0 where
  pub action : Action
  pub resolved_ip : String

abbrev pub same_action : Action → Action → Bool
same_action register register = true
same_action login login = true
same_action refresh refresh = true
same_action _ _ = false

abbrev pub same_key : Key → Key → Bool
same_key k l = same_action k.action l.action && same_text k.resolved_ip l.resolved_ip

-- `_events`: the deque of each key, empty at first.
abbrev pub Deques : Type 0
Deques = Key → List ℕ

abbrev pub put : Key → List ℕ → Deques → Deques
put k events deques l = if same_key l k then events else deques l

abbrev pub key_of : Library → Limits → Action → Request → Key
key_of lib cfg action request = record {
  action = action;
  resolved_ip =
      resolve_client_ip lib (trusted_proxy_ips lib cfg.auth_rate_limit_trusted_proxy_ips) request;
}

-- A refusal raises RateLimitException with its seconds.
unfoldable pub enforce_limit : Library → Limits → ℕ → Action → Request → Deques → Answer × Deques
enforce_limit lib cfg now action request deques =
    let k = key_of lib cfg action request in
    let o = acquire (max_requests cfg action) cfg.auth_rate_limit_window now (deques k) in
    (o.0, put k o.1 deques)
