-- ===== src/Scheduling/Split.antt =====
-- The split of a slot for a booking loses no time of the teacher and adds none.
use guitar_online.Base.{
  ℕ, ◌+◌, ◌≤◌, ◌≡◌, refl, ◌∙◌, ◌≢◌, Bool, ◌&&◌, none, some, List, [], ◌∷◌, ◌++◌, arith, leb, ltb,
  ◌==◌, mark, tally,
}
use guitar_online.Base.Table.{find, tally-save}
use guitar_online.Store.Rows.{AvailabilitySlot, slot_key}
use guitar_online.Store.Session.{Db}
use guitar_online.Scheduling.Repository.{split_open_slot_for_booking}
use guitar_online.Scheduling.Writes.{cut, left_piece, right_piece, split_lem}

-- A slot of a teacher that a moment lies in.
abbrev pub covers : ℕ → ℕ → AvailabilitySlot → Bool
covers teacher_id t s = s.teacher_id == teacher_id && (leb s.start_at t && ltb t s.end_at)

tally-append :
    (p : AvailabilitySlot → Bool) (xs ys : List AvailabilitySlot)
    → tally p (xs ++ ys) ≡ tally p xs + tally p ys
unfolding tally
tally-append p [] ys = omega arith
tally-append p (x ∷ xs) ys = ground (arith, tally-append p xs ys)

find-append :
    (k : ℕ) (xs ys : List AvailabilitySlot)
    → find slot_key k xs ≡ none
    → find slot_key k (xs ++ ys) ≡ find slot_key k ys
unfolding find
find-append k [] ys h = refl
find-append k (x ∷ xs) ys h = ground (arith, find-append k xs ys)

module _ (left_id right_id : ℕ) (s : AvailabilitySlot) (start end : ℕ) (d : Db)
    (left_new : left_id ≢ s.id) (right_new : right_id ≢ s.id)
    (found : find slot_key s.id d.slots ≡ some s) (from_start : s.start_at ≤ start)
    (proper : start ≤ end) (to_end : end ≤ s.end_at) where
  no_left : find slot_key s.id (left_piece left_id s start) ≡ none
  unfolding find
  no_left = ground arith

  no_right : find slot_key s.id (right_piece right_id s end) ≡ none
  unfolding find
  no_right = ground arith

  module _ (teacher_id t : ℕ) where
    pieces :
        (tally (covers teacher_id t) (right_piece right_id s end)
            + tally (covers teacher_id t) (left_piece left_id s start))
          + mark (covers teacher_id t (cut s start end))
        ≡ mark (covers teacher_id t s)
    unfolding tally
    pieces = ground arith

    -- A slot of the table is split at an interval inside it, with new keys for its pieces: each moment lies
    -- in as many slots of each teacher as before.
    pub split_open_slot_for_booking-covers :
        tally
          (covers teacher_id t)
          (split_open_slot_for_booking left_id right_id s start end d).1.slots
        ≡ tally (covers teacher_id t) d.slots
    split_open_slot_for_booking-covers =
        let right = right_piece right_id s end in
        let left = left_piece left_id s start in
        rw (split_lem left_id right_id s start end d) (
          omega (
            arith,
            pieces,
            tally-append (covers teacher_id t) right (left ++ d.slots),
            tally-append (covers teacher_id t) left d.slots,
            tally-save slot_key (covers teacher_id t) (cut s start end) s
                (right ++ (left ++ d.slots))
                (find-append s.id right (left ++ d.slots) no_right
                  ∙ (find-append s.id left d.slots no_left ∙ found)),
          ))
