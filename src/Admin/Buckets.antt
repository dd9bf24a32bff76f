-- ===== src/Admin/Buckets.antt =====
-- Each slot is counted once.
use guitar_online.Base.{
  ℕ, ◌+◌, ◌≡◌, ◌≢◌, refl, sym, ap, ◌∙◌, inl, inr, Bool, true, false, not, Option, none, some, List,
  [], ◌∷◌, ◌++◌, arith, length, select, mark, tally, map, ◌==◌, All, All-append, Bool-cases, ==→ne,
  if◌then◌else◌,
}
use guitar_online.Base.Table.{find, IsKeyed, IsKeyed-select}
use guitar_online.Store.Enums.{is_admin}
use guitar_online.Store.Rows.{User, AvailabilitySlot, Booking, Lesson, slot_key}
use guitar_online.Store.Session.{Db, Result, ok, err}
use guitar_online.Store.Ends.{Ends, Ends-pure, Ends-gets, Ends-pass}
use guitar_online.Admin.Stats.{
  Snapshot, snapshot, lesson_rows, booking_rows, joined, slot_rows, all_rows, in_range, joins_slot,
  joins_booking, Bucket, open_bucket, held, confirmed, canceled, completed, Final,
  resolve_slot_stats_bucket, record_bucket, final_buckets, in_bucket, AdminSlotStatsRead,
  is_reversed, get_slot_stats,
}

-- Whether a slot has a bucket.
unfoldable pub has : ℕ → Final → Bool
has id [] = false
has id ((k, b) ∷ rest) = if k == id then true else has id rest

has-record_bucket :
    (id slot_id : ℕ) (b : Bucket) (final : Final)
    → has id (record_bucket slot_id b final) ≡ (if slot_id == id then true else has id final)
unfolding has record_bucket
has-record_bucket id slot_id b [] = refl
has-record_bucket id slot_id b ((k, c) ∷ rest) = ground (arith, has-record_bucket id slot_id b rest)

length-record_bucket :
    (slot_id : ℕ) (b : Bucket) (final : Final)
    → length (record_bucket slot_id b final) ≡ length final + mark (not (has slot_id final))
unfolding has record_bucket
length-record_bucket slot_id b [] = refl
length-record_bucket slot_id b ((k, c) ∷ rest) = ground (arith, length-record_bucket slot_id b rest)

-- The rows of one slot.
abbrev IsOf : ℕ → Snapshot → Type 0
IsOf id row = row.slot_id ≡ id

-- After some rows of one slot.
abbrev IsCounted : ℕ → Final → Final → Type 0
IsCounted id before after =
    (length after ≡ length before + mark (not (has id before)))
    × ((k : ℕ) → id ≢ k → has k after ≡ has k before)

more_rows :
    (id : ℕ) (rows : List Snapshot) (final : Final)
    → All (IsOf id) rows
    → has id final ≡ true
    → (length (final_buckets rows final) ≡ length final)
      × ((k : ℕ) → id ≢ k → has k (final_buckets rows final) ≡ has k final)
unfolding final_buckets
more_rows id [] final own there = (refl, λ k other. refl)
more_rows id (row ∷ rows) final own there =
    let b = resolve_slot_stats_bucket row in
    let next = record_bucket row.slot_id b final in
    let (longer, others) =
      more_rows id rows next own.1
        (ground (arith, there, own.0, has-record_bucket id row.slot_id b final)) in
    (
      ground (arith, longer, own.0, there, length-record_bucket row.slot_id b final),
      λ k other. ground (arith, others k other, own.0, has-record_bucket k row.slot_id b final),
    )

-- The rows of a slot: at least one, and no others.
abbrev IsGroup : ℕ → List Snapshot → Type 0
IsGroup id [] = ⊥
IsGroup id (row ∷ rows) = IsOf id row × All (IsOf id) rows

group-IsCounted :
    (id : ℕ) (rows : List Snapshot) (final : Final)
    → IsGroup id rows
    → IsCounted id final (final_buckets rows final)
unfolding final_buckets
group-IsCounted id [] final h = absurd h
group-IsCounted id (row ∷ rows) final h =
    let b = resolve_slot_stats_bucket row in
    let next = record_bucket row.slot_id b final in
    let (same, others) =
      more_rows id rows next h.1 (ground (arith, h.0, has-record_bucket id row.slot_id b final)) in
    (
      ground
          (arith, same, h.0, length-record_bucket row.slot_id b final, ap (λ k. has k final) h.0),
      λ k other. ground (arith, others k other, h.0, has-record_bucket k row.slot_id b final),
    )

final_buckets-append :
    (xs ys : List Snapshot) (final : Final)
    → final_buckets (xs ++ ys) final ≡ final_buckets ys (final_buckets xs final)
unfolding final_buckets
final_buckets-append [] ys final = refl
final_buckets-append (x ∷ xs) ys final = final_buckets-append xs ys _

map-IsOf :
    (s : AvailabilitySlot) (b : Booking) (ls : List Lesson)
    → All (IsOf s.id) (map (λ l. snapshot s (some b) (some l)) ls)
map-IsOf s b [] = tt
map-IsOf s b (l ∷ ls) = (refl, map-IsOf s b ls)

IsGroup-append :
    (id : ℕ) (xs ys : List Snapshot) → IsGroup id xs → All (IsOf id) ys → IsGroup id (xs ++ ys)
IsGroup-append id [] ys h k = absurd h
IsGroup-append id (x ∷ xs) ys h k = (h.0, All-append (IsOf id) xs ys h.1 k)

IsGroup-All : (id : ℕ) (xs : List Snapshot) → IsGroup id xs → All (IsOf id) xs
IsGroup-All id [] h = tt
IsGroup-All id (x ∷ xs) h = h

lesson_rows-IsGroup :
    (s : AvailabilitySlot) (b : Booking) (ls : List Lesson) → IsGroup s.id (lesson_rows s b ls)
lesson_rows-IsGroup s b [] = (refl, tt)
lesson_rows-IsGroup s b (l ∷ ls) = (refl, map-IsOf s b ls)

booking_rows-All :
    (lessons : List Lesson) (s : AvailabilitySlot) (bs : List Booking)
    → All (IsOf s.id) (booking_rows lessons s bs)
unfolding booking_rows
booking_rows-All lessons s [] = tt
booking_rows-All lessons s (b ∷ bs) =
    All-append (IsOf s.id) _ _
      (IsGroup-All s.id _ (lesson_rows-IsGroup s b (select (joins_booking b.id) lessons)))
      (booking_rows-All lessons s bs)

joined-IsGroup :
    (lessons : List Lesson) (s : AvailabilitySlot) (bs : List Booking)
    → IsGroup s.id (joined lessons s bs)
unfolding booking_rows
joined-IsGroup lessons s [] = (refl, tt)
joined-IsGroup lessons s (b ∷ bs) =
    IsGroup-append s.id _ _ (lesson_rows-IsGroup s b (select (joins_booking b.id) lessons))
      (booking_rows-All lessons s bs)

fresh-All :
    (id : ℕ) (slots : List AvailabilitySlot)
    → find slot_key id slots ≡ none
    → All (λ s. id ≢ s.id) slots
unfolding find
fresh-All id [] h = tt
fresh-All id (s ∷ slots) h = elim (Bool-cases (s.id == id)) [
  | inl hit ↦ absurd (ground (arith, h, hit))
  | inr miss ↦ (λ same. ==→ne _ _ miss (sym same), fresh-All id slots (ground (arith, h, miss)))
]

uncounted :
    (id : ℕ) (before after : Final) (slots : List AvailabilitySlot)
    → ((k : ℕ) → id ≢ k → has k after ≡ has k before)
    → All (λ s. id ≢ s.id) slots
    → All (λ s. has s.id before ≡ false) slots
    → All (λ s. has s.id after ≡ false) slots
uncounted id before after [] same other h = tt
uncounted id before after (s ∷ slots) same other h =
    (same s.id other.0 ∙ h.0, uncounted id before after slots same other.1 h.1)

length-final_buckets :
    (d : Db) (slots : List AvailabilitySlot) (final : Final)
    → IsKeyed slot_key slots
    → All (λ s. has s.id final ≡ false) slots
    → length (final_buckets (all_rows d slots) final) ≡ length final + length slots
unfolding all_rows final_buckets
length-final_buckets d [] final keyed h = omega arith
length-final_buckets d (s ∷ slots) final keyed h =
    let rows = slot_rows d s in
    let (longer, others) =
      group-IsCounted s.id rows final
        (joined-IsGroup d.lessons s (select (joins_slot s.id) d.bookings)) in
    let next = final_buckets rows final in
    let rest =
      length-final_buckets d slots next keyed.1
        (uncounted s.id final next slots others (fresh-All s.id slots keyed.0) h.1) in
    rw (final_buckets-append rows (all_rows d slots) final) (ground (arith, rest, longer, h.0))

-- The buckets share the slots out.
buckets_sum :
    (final : Final)
    → (tally (in_bucket open_bucket) final
        + tally (in_bucket held) final
        + tally (in_bucket confirmed) final
        + tally (in_bucket canceled) final
        + tally (in_bucket completed) final)
      ≡ length final
unfolding tally
buckets_sum [] = refl
buckets_sum ((k, open_bucket) ∷ rest) = omega (arith, buckets_sum rest)
buckets_sum ((k, held) ∷ rest) = omega (arith, buckets_sum rest)
buckets_sum ((k, confirmed) ∷ rest) = omega (arith, buckets_sum rest)
buckets_sum ((k, canceled) ∷ rest) = omega (arith, buckets_sum rest)
buckets_sum ((k, completed) ∷ rest) = omega (arith, buckets_sum rest)

unseen : (slots : List AvailabilitySlot) → All (λ s. has s.id [] ≡ false) slots
unfolding has
unseen [] = tt
unseen (s ∷ slots) = (refl, unseen slots)

-- The statistics of the slots in a range.
abbrev pub IsPartition : Option ℕ → Option ℕ → Db → Result AdminSlotStatsRead → Db → Type 0
IsPartition from_utc to_utc d (ok stats) d' =
    (d' ≡ d)
    × (stats.total_slots ≡ length (select (in_range from_utc to_utc) d.slots))
    × ((stats.open_slots + stats.held_slots + stats.confirmed_slots + stats.canceled_slots
          + stats.completed_slots)
        ≡ stats.total_slots)
IsPartition from_utc to_utc d (err e) d' = ⊥

-- For an administrator, a range that is not reversed and slots with distinct keys, the statistics are
-- returned and nothing changes. The total is the number of slots in the range, however many bookings
-- and lessons they have, and it is the sum of the five counts.
pub get_slot_stats-IsPartition :
    (actor : User) (from_utc to_utc : Option ℕ) (d : Db)
    → is_admin actor.role ≡ true
    → is_reversed from_utc to_utc ≡ false
    → IsKeyed slot_key d.slots
    → Ends (IsPartition from_utc to_utc d) (get_slot_stats actor from_utc to_utc) d
unfolding get_slot_stats
get_slot_stats-IsPartition actor from_utc to_utc d admin proper keyed =
    let slots = select (in_range from_utc to_utc) d.slots in
    Ends-pass _ _ _ (rw admin refl) (
      Ends-pass _ _ _ proper (
        Ends-gets _ _ (
          Ends-pure _ (
            refl,
            length-final_buckets d slots []
                  (IsKeyed-select slot_key (in_range from_utc to_utc) d.slots keyed) (unseen slots)
                ∙ omega arith,
            buckets_sum (final_buckets (all_rows d slots) []),
          ))))
