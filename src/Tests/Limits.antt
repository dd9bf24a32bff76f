-- ===== src/Tests/Limits.antt =====
-- Two logins of a client that is no trusted proxy, the second one with a forwarded address.
use guitar_online.Base.{◌≡◌, refl, false, none, some, List, [], ◌∷◌, arith}
use guitar_online.RateLimit.Window.{drop_expired, acquire}
use guitar_online.RateLimit.Limit.{IsLimited, IsMonotone}
use guitar_online.RateLimit.Client.{
  Library, Request, login, Limits, values, Key, trusted_proxy_ips, is_listed, matches_any,
  is_trusted_proxy, resolve_client_ip, enforce_limit,
}
use guitar_online.RateLimit.Keys.{Call, admitted_under, enforce_limit-IsLimited}

-- No header of the tests has a comma, and all addresses are the proxy's or not one.
abbrev lib : Library
lib = record {
  strip = λ s. s;
  split_first = λ s. s;
  split_rest = λ s. [];
  has_slash = λ s. false;
  ip_address = λ s. none;
  in_network = λ client s. none;
}

abbrev cfg : Limits
cfg = record {
  auth_rate_limit_window = 60;
  auth_rate_limit_register_requests = 5;
  auth_rate_limit_login_requests = 1;
  auth_rate_limit_refresh_requests = 20;
  auth_rate_limit_trusted_proxy_ips = values ("10.0.0.1" ∷ []);
}

abbrev plain : Request
plain = record { client_host = some "192.0.2.7"; x_forwarded_for = none }

abbrev forged : Request
forged = record { client_host = some "192.0.2.7"; x_forwarded_for = some "192.0.2.8" }

abbrev calls : List Call
calls =
    record { now = 5; action = login; request = plain }
    ∷ record { now = 9; action = login; request = forged }
    ∷ []

abbrev key : Key
key = record { action = login; resolved_ip = "192.0.2.7" }

enforce_limit-IsLimited_example : IsLimited 1 60 (admitted_under lib cfg key calls (λ l. []) [])
unfolding IsMonotone
enforce_limit-IsLimited_example =
    enforce_limit-IsLimited lib cfg key calls (omega arith, (omega arith, tt))

-- The second one is refused.
forged_refused : admitted_under lib cfg key calls (λ l. []) [] ≡ 5 ∷ []
unfolding admitted_under enforce_limit acquire drop_expired resolve_client_ip trusted_proxy_ips
    is_listed matches_any is_trusted_proxy
forged_refused = refl
