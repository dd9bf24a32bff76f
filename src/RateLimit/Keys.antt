-- ===== src/RateLimit/Keys.antt =====
-- The requests that share a key.
use text.Mathlib.TextEquality.{eq_iff}
use guitar_online.Base.{
  ℕ, ◌≤◌, ◌≡◌, refl, sym, ap, ◌∙◌, inl, inr, Bool, true, false, List, [], ◌∷◌, String,
  if◌then◌else◌, Bool-cases, Option-cases, arith,
}
use guitar_online.Store.Text.{is_nonempty}
use guitar_online.RateLimit.Window.{Answer, allowed, refused, index_error, acquire}
use guitar_online.RateLimit.Limit.{logged, serve, IsLimited, IsMonotone, serve-IsLimited}
use guitar_online.RateLimit.Client.{
  Library, Request, Action, Limits, max_requests, Key, same_action, same_key, Deques, put, key_of,
  enforce_limit, is_trusted_proxy, host_of, resolve_client_ip,
}

-- A request at one of the three endpoints, and its time.
pub record Call : Type 0 where
  pub now : ℕ
  pub action : Action
  pub request : Request

abbrev pub times_of : List Call → List ℕ
times_of [] = []
times_of (c ∷ rest) = c.now ∷ times_of rest

same_action→eq : (a b : Action) → same_action a b ≡ true → a ≡ b
same_action→eq a b h = ground arith

same_key→eq : (k l : Key) → same_key k l ≡ true → k ≡ l
same_key→eq k l h =
    let action : k.action ≡ l.action = same_action→eq k.action l.action (ground (arith, h)) in
    let ip : k.resolved_ip ≡ l.resolved_ip =
      (eq_iff k.resolved_ip l.resolved_ip).0 (ground (arith, h)) in
    rw (action, ip) refl

put_self :
    (k l : Key) (events : List ℕ) (deques : Deques)
    → same_key k l ≡ true
    → put l events deques k ≡ events
put_self k l events deques h = rw h refl

put_other :
    (k l : Key) (events : List ℕ) (deques : Deques)
    → same_key k l ≡ false
    → put l events deques k ≡ deques k
put_other k l events deques h = rw h refl

IsMonotone-later : (a b : ℕ) (ts : List ℕ) → a ≤ b → IsMonotone b ts → IsMonotone a ts
unfolding IsMonotone
IsMonotone-later a b [] h m = tt
IsMonotone-later a b (t ∷ ts) h m = (omega (arith, h, m.0), m.1)

abbrev admit : ℕ → Answer → List ℕ → List ℕ
admit now allowed past = now ∷ past
admit now _ past = past

logged_lem :
    (now : ℕ) (o : Answer × List ℕ) (past : List ℕ)
    → logged now o past ≡ record { events = o.1; admitted = admit now o.0 past }
logged_lem now (allowed, events) past = refl
logged_lem now (refused n, events) past = refl
logged_lem now (index_error, events) past = refl

module _ (lib : Library) (cfg : Limits) (k : Key) where
  abbrev has_key : Call → Bool
  has_key c = same_key k (key_of lib cfg c.action c.request)

  -- The times of the calls with the key.
  abbrev times_under : List Call → List ℕ
  times_under [] = []
  times_under (c ∷ rest) =
      let later = times_under rest in if has_key c then c.now ∷ later else later

  -- The calls one after another: the times of those with the key that are admitted, newest first.
  unfoldable pub admitted_under : List Call → Deques → List ℕ → List ℕ
  admitted_under [] deques past = past
  admitted_under (c ∷ rest) deques past =
      let o = enforce_limit lib cfg c.now c.action c.request deques in
      admitted_under rest o.1 (if has_key c then admit c.now o.0 past else past)

  times-IsMonotone :
      (last : ℕ) (cs : List Call) → IsMonotone last (times_of cs) → IsMonotone last (times_under cs)
  unfolding IsMonotone
  times-IsMonotone last [] h = tt
  times-IsMonotone last (c ∷ cs) h = elim (Bool-cases (has_key c)) [
    | inl mine ↦ rw mine (h.0, times-IsMonotone c.now cs h.1)
    | inr other ↦ rw other (IsMonotone-later last c.now _ h.0 (times-IsMonotone c.now cs h.1))
  ]

  abbrev answer_at : ℕ → Deques → Key → Answer × List ℕ
  answer_at now deques l =
      acquire (max_requests cfg l.action) cfg.auth_rate_limit_window now (deques l)

  abbrev served : List Call → List ℕ → List ℕ → List ℕ
  served cs events past =
      (serve (max_requests cfg k.action) cfg.auth_rate_limit_window (times_under cs)
        (record { events = events; admitted = past })).admitted

  -- What the other keys do does not matter: the calls with the key are those of one window.
  admitted-serve :
      (cs : List Call) (deques : Deques) (past : List ℕ)
      → admitted_under cs deques past
        ≡ (serve
            (max_requests cfg k.action)
            cfg.auth_rate_limit_window
            (times_under cs)
            (record { events = deques k; admitted = past })).admitted
  unfolding admitted_under enforce_limit serve
  admitted-serve [] deques past = refl
  admitted-serve (c ∷ cs) deques past =
      let l = key_of lib cfg c.action c.request in
      let o = answer_at c.now deques l in
      elim (Bool-cases (has_key c)) [
        | inl mine ↦ rw mine (
            admitted-serve cs (put l o.1 deques) (admit c.now o.0 past)
            ∙ ap (λ events. served cs events (admit c.now o.0 past)) (put_self k l o.1 deques mine)
            ∙ ap (λ o. served cs o.1 (admit c.now o.0 past))
                (sym (ap (answer_at c.now deques) (same_key→eq k l mine)))
            ∙ ap
                (λ log.
                  (serve (max_requests cfg k.action) cfg.auth_rate_limit_window (times_under cs)
                    log).admitted)
                (sym (logged_lem c.now (answer_at c.now deques k) past)))
        | inr other ↦ rw other (
            admitted-serve cs (put l o.1 deques) past
            ∙ ap (λ events. served cs events past) (put_other k l o.1 deques other))
      ]

-- Whatever requests come to the three endpoints, from whatever clients and with whatever headers, at
-- times that do not go back: in the window that ends with an admitted request of a key, the requests
-- of that key admitted so far are at most the limit of its action.
pub enforce_limit-IsLimited :
    (lib : Library) (cfg : Limits) (k : Key) (cs : List Call)
    → IsMonotone 0 (times_of cs)
    → IsLimited
        (max_requests cfg k.action)
        cfg.auth_rate_limit_window
        (admitted_under lib cfg k cs (λ l. []) [])
enforce_limit-IsLimited lib cfg k cs h = rw (admitted-serve lib cfg k cs (λ l. []) []) (
    serve-IsLimited (max_requests cfg k.action) cfg.auth_rate_limit_window
      (times_under lib cfg k cs) (times-IsMonotone lib cfg k 0 cs h))

-- A client that is no trusted proxy cannot choose its key: it counts under its own host whatever it
-- forwards.
pub resolve_client_ip_untrusted :
    (lib : Library) (proxies : List String) (request : Request)
    → is_trusted_proxy lib (host_of lib request.client_host) proxies ≡ false
    → resolve_client_ip lib proxies request ≡ host_of lib request.client_host
unfolding resolve_client_ip
resolve_client_ip_untrusted lib proxies request h = elim (Option-cases request.x_forwarded_for) [
  | inl absent ↦ rw absent refl
  | inr (value, there) ↦
      rw (there, h)
        (elim (Bool-cases (is_nonempty value)) [ inl s ↦ rw s refl | inr e ↦ rw e refl ])
]
