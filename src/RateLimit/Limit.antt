-- ===== src/RateLimit/Limit.antt =====
-- No window ever holds more admitted requests than the limit.
use guitar_online.Base.{
  ℕ, ◌+◌, ◌≤◌, ◌<◌, ◌≡◌, refl, Bool, List, [], ◌∷◌, ◌++◌, length, leb, ltb, tally, mark, arith,
  Bool-cases, inl, inr,
}
use guitar_online.RateLimit.Window.{drop_expired, Answer, allowed, refusal, acquire}

-- A request lies in the window that ends at `now`.
abbrev pub in_window : ℕ → ℕ → ℕ → Bool
in_window window now t = ltb now (t + window)

-- The deque and every request that was admitted, newest first.
pub record Log : Type 0 where
  pub events : List ℕ
  pub admitted : List ℕ

abbrev pub logged : ℕ → Answer × List ℕ → List ℕ → Log
logged now (allowed, events) admitted = record { events = events; admitted = now ∷ admitted }
logged now (_, events) admitted = record { events = events; admitted = admitted }

-- Requests at the times of a list, one after another.
unfoldable pub serve : ℕ → ℕ → List ℕ → Log → Log
serve max_requests window [] log = log
serve max_requests window (now ∷ rest) log =
    serve max_requests window rest
      (logged now (acquire max_requests window now log.events) log.admitted)

-- Each admitted request has, in the window that ends with it, no more admitted ones than the limit.
unfoldable pub IsLimited : ℕ → ℕ → List ℕ → Type 0
IsLimited max_requests window [] = Unit
IsLimited max_requests window (t ∷ past) =
    (tally (in_window window t) (t ∷ past) ≤ max_requests) × IsLimited max_requests window past

-- The times do not go back.
unfoldable pub IsMonotone : ℕ → List ℕ → Type 0
IsMonotone last [] = Unit
IsMonotone last (t ∷ rest) = (last ≤ t) × IsMonotone t rest

tally-le : (p : ℕ → Bool) (xs : List ℕ) → tally p xs ≤ length xs
unfolding tally
tally-le p [] = ground arith
tally-le p (x ∷ xs) = ground (arith, tally-le p xs)

tally-append :
    (p : ℕ → Bool) (xs : List ℕ) (t : ℕ) → tally p (xs ++ t ∷ []) ≡ tally p xs + mark (p t)
unfolding tally
tally-append p [] t = ground arith
tally-append p (x ∷ xs) t = ground (arith, tally-append p xs t)

-- What has left the deque is in no later window.
tally-drop :
    (window now n : ℕ) (events : List ℕ)
    → now ≤ n
    → tally (in_window window n) (drop_expired now window events)
      ≡ tally (in_window window n) events
unfolding tally drop_expired
tally-drop window now n [] h = refl
tally-drop window now n (t ∷ rest) h = ground (arith, tally-drop window now n rest h)

-- The deque holds all of each later window, and the limit has been kept.
record IsFair (max_requests window last : ℕ) (log : Log) : Type 0 where
  covers :
      (n : ℕ)
      → last ≤ n
      → tally (in_window window n) log.admitted ≤ tally (in_window window n) log.events
  limited : IsLimited max_requests window log.admitted

logged-refusal :
    (now window : ℕ) (kept admitted : List ℕ)
    → logged now (refusal now window kept, kept) admitted
      ≡ record { events = kept; admitted = admitted }
logged-refusal now window [] admitted = refl
logged-refusal now window (t ∷ kept) admitted = refl

module _ (max_requests window last now : ℕ) (log : Log) (later : last ≤ now)
    (fair : IsFair max_requests window last log) where
  abbrev kept : List ℕ
  kept = drop_expired now window log.events

  covers_kept :
      (n : ℕ) → now ≤ n → tally (in_window window n) log.admitted ≤ tally (in_window window n) kept
  covers_kept n h = omega (arith, fair.covers n (omega arith), tally-drop window now n log.events h)

  refused-IsFair :
      IsFair max_requests window now (record { events = kept; admitted = log.admitted })
  refused-IsFair = record { covers = covers_kept; limited = fair.limited }

  allowed-IsFair :
      length kept < max_requests
      → IsFair max_requests window now
          (record { events = kept ++ now ∷ []; admitted = now ∷ log.admitted })
  unfolding IsLimited tally
  allowed-IsFair room = record {
    covers = λ n h. ground (arith, covers_kept n h, tally-append (in_window window n) kept now);
    limited = (ground (arith, covers_kept now, tally-le (in_window window now) kept), fair.limited);
  }

  acquire-IsFair :
      IsFair max_requests window now
        (logged now (acquire max_requests window now log.events) log.admitted)
  unfolding acquire
  acquire-IsFair = elim (Bool-cases (leb max_requests (length kept))) [
    | inl full ↦ rw (full, logged-refusal now window kept log.admitted) refused-IsFair
    | inr room ↦ rw room (allowed-IsFair (ground arith))
  ]

serve-IsFair :
    (max_requests window last : ℕ) (times : List ℕ) (log : Log)
    → IsMonotone last times
    → IsFair max_requests window last log
    → IsLimited max_requests window (serve max_requests window times log).admitted
unfolding serve IsMonotone
serve-IsFair max_requests window last [] log h fair = fair.limited
serve-IsFair max_requests window last (now ∷ times) log h fair =
    serve-IsFair max_requests window now times _ h.1
      (acquire-IsFair max_requests window last now log h.0 fair)

abbrev pub empty_log : Log
empty_log = record { events = []; admitted = [] }

-- However many requests come, at times that do not go back: in the window that ends with an admitted
-- request, the requests admitted so far are at most the limit.
pub serve-IsLimited :
    (max_requests window : ℕ) (times : List ℕ)
    → IsMonotone 0 times
    → IsLimited max_requests window (serve max_requests window times empty_log).admitted
unfolding IsLimited tally
serve-IsLimited max_requests window times h =
    serve-IsFair max_requests window 0 times empty_log h
      (record { covers = λ n _. ground arith; limited = tt })
