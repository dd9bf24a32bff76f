-- ===== src/Scheduling/Weekly/Apart.antt =====
-- The windows that the normalisation returns never overlap.
use mathlib.Core.List.{Perm}
use guitar_online.Base.{
  ℕ, ◌≤◌, ◌<◌, ◌≡◌, refl, inl, inr, true, false, List, [], ◌∷◌, arith, Bool, All, All-map,
  All-select, map, select, Bool-cases, ltb→ge, leb→gt, ap,
}
use guitar_online.Base.Sort.{sort, IsSorted, sort-perm, sort-IsSorted, All-sort}
use guitar_online.Store.Rows.{Window}
use guitar_online.Store.Session.{Db}
use guitar_online.Store.Ends.{Ends, Ends-pure, Ends-raise_if, Ends-check, Checked}
use guitar_online.Scheduling.Weekly.{
  normalized, normalize_all, window_le, on_weekday, has_overlap, any_overlap,
  normalize_weekly_schedule_windows,
}

-- A window of a day of the week that takes some time.
abbrev pub IsProper : Window → Type 0
IsProper w = (w.weekday ≤ 6) × (w.start_local_time < w.end_local_time)

-- Of two windows of a weekday the first ends before the second begins.
abbrev pub IsBefore : Window → Window → Type 0
IsBefore v w = v.weekday ≡ w.weekday → v.end_local_time ≤ w.start_local_time

abbrev pub IsApart : List Window → Type 0
IsApart [] = Unit
IsApart (v ∷ windows) = All (IsBefore v) windows × IsApart windows

normalize_all-IsProper :
    (windows : List Window) (d : Db)
    → Ends
        (Checked d (λ ws. (ws ≡ map normalized windows) × All IsProper ws))
        (normalize_all windows)
        d
unfolding normalize_all
normalize_all-IsProper [] d = Ends-pure _ (refl, (refl, tt))
normalize_all-IsProper (w ∷ windows) d =
    Ends-raise_if _ _ _ (λ _. refl)
      λ weekday.
        Ends-raise_if _ _ _ (λ _. refl)
          λ proper.
            Ends-check _ _ _ (normalize_all-IsProper windows d) (λ _. refl)
              λ rest h. Ends-pure _ (
                refl,
                (ap (λ ws. normalized w ∷ ws) h.0, ((ltb→ge _ _ weekday, leb→gt _ _ proper), h.1)),
              )

-- Each window of a list begins no sooner than the time.
abbrev StartsFrom : ℕ → Window → Type 0
StartsFrom t w = t ≤ w.start_local_time

has_overlap-StartsFrom :
    (v : Window) (windows : List Window)
    → All IsProper windows
    → has_overlap (v ∷ windows) ≡ false
    → All (StartsFrom v.end_local_time) windows
unfolding has_overlap
has_overlap-StartsFrom v [] proper h = tt
has_overlap-StartsFrom v (w ∷ windows) proper h = (
  ground arith,
  All-map (StartsFrom w.end_local_time) (StartsFrom v.end_local_time) windows
      (λ x later. ground (arith, proper.0.1))
      (has_overlap-StartsFrom w windows proper.1 (ground arith)),
)

unselect :
    (Q : Window → Type 0) (p : Window → Bool) (xs : List Window)
    → All Q (select p xs)
    → All (λ x. p x ≡ true → Q x) xs
unselect Q p [] h = tt
unselect Q p (x ∷ xs) h = elim (Bool-cases (p x)) [
  | inl hit ↦ let h' = rw hit at h in (λ _. h'.0, unselect Q p xs h'.1)
  | inr miss ↦ (λ hit. absurd (ground (arith, hit, miss)), unselect Q p xs (rw miss at h))
]

All-IsProper : (p : Window → Bool) (xs : List Window) → All IsProper xs → All IsProper (select p xs)
All-IsProper p xs h = All-map _ IsProper _ (λ x q. q.1) (All-select IsProper p xs h)

abbrev IsClear : List Window → Window → Type 0
IsClear windows w = has_overlap (select (on_weekday w.weekday) windows) ≡ false

any_overlap-IsClear :
    (windows ws : List Window)
    → any_overlap windows (map (λ w. w.weekday) ws) ≡ false
    → All (IsClear windows) ws
unfolding any_overlap
any_overlap-IsClear windows [] h = tt
any_overlap-IsClear windows (w ∷ ws) h =
    (ground arith, any_overlap-IsClear windows ws (ground arith))

has_overlap_tail :
    (v : Window) (windows : List Window)
    → has_overlap (v ∷ windows) ≡ false
    → has_overlap windows ≡ false
unfolding has_overlap
has_overlap_tail v [] h = refl
has_overlap_tail v (w ∷ windows) h = ground arith

IsClear-tail :
    (v : Window) (windows : List Window) (w : Window) → IsClear (v ∷ windows) w → IsClear windows w
IsClear-tail v windows w h = elim (Bool-cases (on_weekday w.weekday v)) [
  | inl hit ↦ has_overlap_tail v _ (rw hit at h)
  | inr miss ↦ rw miss at h
]

clear-IsApart :
    (windows : List Window) → All IsProper windows → All (IsClear windows) windows → IsApart windows
clear-IsApart [] proper h = tt
clear-IsApart (v ∷ windows) proper h =
    let here = on_weekday v.weekday in
    let head : has_overlap (v ∷ select here windows) ≡ false = ground (arith, h.0) in
    (
      All-map (λ w. here w ≡ true → StartsFrom v.end_local_time w) (IsBefore v) windows
          (λ w from same. from (ground arith))
          (unselect (StartsFrom v.end_local_time) here windows
            (has_overlap-StartsFrom v _ (All-IsProper here windows proper.1) head)),
      clear-IsApart windows proper.1
          (All-map (IsClear (v ∷ windows)) (IsClear windows) windows (IsClear-tail v windows) h.1),
    )

window_le_total : (v w : Window) → window_le v w ≡ false → window_le w v ≡ true
window_le_total v w h = ground arith

window_le_trans :
    (u v w : Window) → window_le u v ≡ true → window_le v w ≡ true → window_le u w ≡ true
window_le_trans u v w h k = ground arith

-- What a schedule is after its normalisation.
abbrev pub IsSchedule : List Window → Type 0
IsSchedule windows = IsSorted window_le windows × All IsProper windows × IsApart windows

-- The normalisation of a schedule changes nothing in the session. It raises, or it returns the windows cut down to
-- whole minutes: each on a day of the week and of some length, ordered by weekday, start and end, and of two windows of
-- one weekday the first ends before the second begins.
pub normalize_weekly_schedule_windows-IsSchedule :
    (windows : List Window) (d : Db)
    → Ends
        (Checked d (λ ws. Perm ws (map normalized windows) × IsSchedule ws))
        (normalize_weekly_schedule_windows windows)
        d
unfolding normalize_weekly_schedule_windows
normalize_weekly_schedule_windows-IsSchedule windows d =
    Ends-raise_if _ _ _ (λ _. refl)
      λ few.
        Ends-check _ _ _ (normalize_all-IsProper windows d) (λ _. refl)
          λ ws h.
            let sorted = sort window_le ws in
            let proper = All-sort window_le IsProper ws h.1 in
            Ends-raise_if _ _ _ (λ _. refl)
              λ clear. Ends-pure _ (
                refl,
                (
                  rw (← h.0) (sort-perm window_le ws),
                  (
                    sort-IsSorted window_le window_le_total window_le_trans ws,
                    proper,
                    clear-IsApart sorted proper (any_overlap-IsClear sorted sorted clear),
                  ),
                ),
              )
