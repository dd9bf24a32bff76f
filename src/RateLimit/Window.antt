-- ===== src/RateLimit/Window.antt =====
-- `InMemorySlidingWindowRateLimiter.acquire`. Times are numbers of ticks; the deque of a key is a
-- list, oldest first.
use guitar_online.Base.{ℕ, ◌+◌, ◌-◌, ◌/◌, List, [], ◌∷◌, ◌++◌, length, leb, if◌then◌else◌}

-- `while events and events[0] <= window_start: events.popleft()`
unfoldable pub drop_expired : ℕ → ℕ → List ℕ → List ℕ
drop_expired now window [] = []
drop_expired now window (t ∷ rest) =
    let dropped = drop_expired now window rest in if leb (t + window) now then dropped else t ∷ rest

-- A tick is a microsecond.
abbrev pub second : ℕ
second = 1_000_000

-- `math.ceil` of a number of ticks, in seconds.
abbrev pub ceil : ℕ → ℕ
ceil ticks = (ticks + (second - 1)) / second

abbrev pub at_least_one : ℕ → ℕ
at_least_one n = if leb n 1 then 1 else n

-- What `acquire` answers. A limit of 0 makes it read the first of no events, an IndexError.
pub data Answer : Type 0 where
  allowed : Answer
  refused : ℕ → Answer
  index_error : Answer

abbrev pub refusal : ℕ → ℕ → List ℕ → Answer
refusal now window [] = index_error
refusal now window (t ∷ rest) = refused (at_least_one (ceil (t + window - now)))

-- The window is in ticks here.
unfoldable pub acquire : ℕ → ℕ → ℕ → List ℕ → Answer × List ℕ
acquire max_requests window now events =
    let kept = drop_expired now window events in
    if leb max_requests (length kept)
    then (refusal now window kept, kept)
    else (allowed, kept ++ now ∷ [])
