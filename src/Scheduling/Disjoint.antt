-- ===== src/Scheduling/Disjoint.antt =====
-- A teacher's slots never overlap.
use guitar_online.Base.{
  leb→le, ltb→lt, ℕ, ◌-◌, ◌/◌, ◌<◌, ◌≤◌, ◌≡◌, ◌⊎◌, tally, refl, ap, true, inl, inr, Bool, false,
  Option, none, List, [], ◌∷◌, arith, select, All, Bool-cases,
}
use guitar_online.Store.Rows.{User, AvailabilitySlot, minute}
use guitar_online.Store.Enums.{is_admin}
use guitar_online.Store.Settings.{Settings}
use guitar_online.Store.Session.{Db, Env, Result, ok, err, IsBusiness}
use guitar_online.Store.Ends.{
  Ends, Ends-mono, Ends-pure, Ends-gets, Ends-raise_if, Ends-modify, Ends-assoc, Ends-pure_bind,
}
use guitar_online.Scheduling.Repository.{new_slot, overlaps, earliest, find_overlapping_slot}
use guitar_online.Scheduling.Service.{SlotCreate, is_some, create_slot}

-- Two slots of one teacher share a moment.
abbrev pub clash : AvailabilitySlot → AvailabilitySlot → Bool
clash s t = overlaps s.teacher_id s.start_at s.end_at t

abbrev pub IsDisjoint : List AvailabilitySlot → Type 0
IsDisjoint [] = Unit
IsDisjoint (s ∷ rest) = All (λ t. clash s t ≡ false) rest × IsDisjoint rest

-- The query's order picks a row unless there is none.
earliest-none : (xs : List AvailabilitySlot) → earliest xs ≡ none → xs ≡ []
unfolding earliest
earliest-none [] h = refl
earliest-none (s ∷ xs) h = ground (arith, h)

select_none :
    {A : Type 0} (p : A → Bool) (xs : List A) → select p xs ≡ [] → All (λ x. p x ≡ false) xs
select_none p [] h = tt
select_none p (x ∷ xs) h = elim (Bool-cases (p x)) [
  | inl hit ↦ absurd (ground (arith, h, hit))
  | inr miss ↦ (miss, select_none p xs (ground (arith, h, miss)))
]

is_some-none : (o : Option AvailabilitySlot) → is_some o ≡ false → o ≡ none
is_some-none o h = ground arith

pub free-clash :
    (teacher_id start end : ℕ) (slots : List AvailabilitySlot)
    → is_some (earliest (select (overlaps teacher_id start end) slots)) ≡ false
    → All (λ t. overlaps teacher_id start end t ≡ false) slots
free-clash teacher_id start end slots free =
    select_none (overlaps teacher_id start end) slots (earliest-none _ (is_some-none _ free))

-- Why a slot is refused: its ends, its start, its length, or a slot of its teacher that it overlaps.
abbrev pub IsUnfit : Settings → ℕ → SlotCreate → List AvailabilitySlot → Type 0
IsUnfit cfg now payload slots =
    (payload.end_at ≤ payload.start_at)
    ⊎ (payload.start_at ≤ now)
    ⊎ ((payload.end_at - payload.start_at) / minute < cfg.slot_min_duration_minutes)
    ⊎ (0 < tally (overlaps payload.teacher_id payload.start_at payload.end_at) slots)

taken-tally :
    (p : AvailabilitySlot → Bool) (slots : List AvailabilitySlot)
    → is_some (earliest (select p slots)) ≡ true
    → 0 < tally p slots
unfolding earliest tally
taken-tally p [] h = absurd (ground (arith, h))
taken-tally p (s ∷ slots) h = elim (Bool-cases (p s)) [
  | inl hit ↦ ground (arith, hit)
  | inr miss ↦ ground (arith, miss, taken-tally p slots (ground (arith, h, miss)))
]

-- A call of `create_slot` either changes nothing or adds the row that it returns.
abbrev pub Tried : Settings → Env → SlotCreate → User → Db → Result AvailabilitySlot → Db → Type 0
Tried cfg env payload actor d (ok s) d' =
    (s ≡ new_slot (env.uuid4 0) payload.teacher_id actor.id payload.start_at payload.end_at)
    × (d'.slots ≡ s ∷ d.slots)
    × IsDisjoint d'.slots
    × (env.clock 0 < s.start_at)
    × (s.start_at < s.end_at)
Tried cfg env payload actor d (err e) d' =
    (d' ≡ d)
    × (is_admin actor.role ≡ true → IsBusiness e × IsUnfit cfg (env.clock 0) payload d.slots)

pub create_slot-Tried :
    (cfg : Settings) (env : Env) (payload : SlotCreate) (actor : User) (d : Db)
    → IsDisjoint d.slots
    → Ends (Tried cfg env payload actor d) (create_slot cfg env payload actor) d
unfolding create_slot find_overlapping_slot
create_slot-Tried cfg env payload actor d h =
    Ends-raise_if _ _ _ (λ refused. (refl, λ admin. absurd (ground (arith, refused, admin))))
      λ _.
        Ends-raise_if _ _ _ (λ h. (refl, λ _. (tt, inl (leb→le _ _ h))))
          λ proper.
            Ends-raise_if _ _ _ (λ h. (refl, λ _. (tt, inr (inl (leb→le _ _ h)))))
              λ later.
                Ends-raise_if _ _ _ (λ h. (refl, λ _. (tt, inr (inr (inl (ltb→lt _ _ h))))))
                  λ _. Ends-gets _ _ (
                    Ends-raise_if _ _ _
                      (λ h. (refl, λ _. (tt, inr (inr (inr (taken-tally _ d.slots h))))))
                      λ free. Ends-assoc _ _ _ _ (
                        Ends-modify _ _ (
                          Ends-pure_bind _ _ (
                            Ends-modify _ _ (
                              Ends-pure _ (
                                refl,
                                refl,
                                (
                                  free-clash payload.teacher_id payload.start_at payload.end_at
                                      d.slots free,
                                  h,
                                ),
                                ground arith,
                                ground arith,
                              ))))))

-- What `create_slot` leaves behind.
abbrev pub Created : Settings → ℕ → Db → Result AvailabilitySlot → Db → Type 0
Created cfg now d (ok s) d' =
    (d'.slots ≡ s ∷ d.slots) × IsDisjoint d'.slots × (now < s.start_at) × (s.start_at < s.end_at)
Created cfg now d (err e) d' = d'.slots ≡ d.slots

Tried-Created :
    (cfg : Settings) (env : Env) (payload : SlotCreate) (actor : User) (d : Db)
    (r : Result AvailabilitySlot) (d' : Db)
    → Tried cfg env payload actor d r d'
    → Created cfg (env.clock 0) d r d'
Tried-Created cfg env payload actor d (ok s) d' h = (h.1, h.2, h.3, h.4)
Tried-Created cfg env payload actor d (err e) d' h = ap (λ d. d.slots) h.0

-- If no two slots of a teacher overlap, `create_slot` either raises and leaves the slots as they
-- were, or adds the slot that it returns, which lies in the future and does not end before it
-- starts, and still no two slots of a teacher overlap.
pub create_slot-Created :
    (cfg : Settings) (env : Env) (payload : SlotCreate) (actor : User) (d : Db)
    → IsDisjoint d.slots
    → Ends (Created cfg (env.clock 0) d) (create_slot cfg env payload actor) d
create_slot-Created cfg env payload actor d h =
    Ends-mono _ _ _ (Tried-Created cfg env payload actor d)
      (create_slot-Tried cfg env payload actor d h)
