-- ===== src/Scheduling/Bulk/Tiles.antt =====
-- The candidates of a day: the loop lays slot behind slot until none fits.
use guitar_online.Base.{
  ℕ, zero, suc, ◌+◌, ◌-◌, ◌*◌, ◌≤◌, ◌<◌, ◌≡◌, refl, inl, inr, List, [], ◌∷◌, arith, leb, Bool-cases,
  leb→le, leb→gt,
}
use guitar_online.Scheduling.Bulk.{Candidate, day_candidates}

-- So many slots of one length, each beginning where the one before it ends.
unfoldable pub tiles : ℕ → ℕ → ℕ → List Candidate
tiles zero duration cursor = []
tiles (suc n) duration cursor =
    record { start_at_utc = cursor; end_at_utc = cursor + duration }
    ∷ tiles n duration (cursor + duration)

-- As many tiles as fit in the time from `cursor` to `day_end`.
abbrev pub IsTiled : ℕ → ℕ → ℕ → List Candidate → Type 0
IsTiled duration day_end cursor cs =
    (n : ℕ) × (cs ≡ tiles n duration cursor)
    × (cursor + n * duration ≤ day_end)
    × (day_end < cursor + suc n * duration)

-- For slots of some length and a day that does not end before it begins, the loop, given as many rounds as there are microseconds
-- in the day and one more, ends by itself: its candidates are slots of this length laid one
-- behind the other from the beginning of the day, as many as fit before its end.
pub day_candidates-IsTiled :
    (fuel duration day_end cursor : ℕ)
    → 0 < duration
    → cursor ≤ day_end
    → day_end - cursor < fuel
    → IsTiled duration day_end cursor (day_candidates fuel duration day_end cursor)
unfolding day_candidates tiles
day_candidates-IsTiled zero duration day_end cursor some_time proper enough = absurd (omega arith)
day_candidates-IsTiled (suc fuel) duration day_end cursor some_time proper enough =
    elim (Bool-cases (leb (cursor + duration) day_end)) [
      | inl fits ↦
          let (n, same, inside, full) =
            day_candidates-IsTiled fuel duration day_end (cursor + duration) some_time
              (leb→le _ _ fits) (ground arith) in
          (suc n, rw (fits, same) refl, grind arith, grind arith)
      | inr late ↦ (0, rw late refl, omega arith, ground (arith, leb→gt _ _ late))
    ]
