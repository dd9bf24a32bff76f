-- ===== src/Scheduling/Weekly/Resolved.antt =====
-- What the resolution of a teacher's time zone leaves behind.
use text.Mathlib.Text.{◌==◌ as same_text}
use guitar_online.Base.{ℕ, ◌≡◌, refl, not, Option, none, some, String, ◌||◌}
use guitar_online.Store.Text.{Str, is_nonempty}
use guitar_online.Store.Session.{Db, Result, ok, err, business, IsBusiness}
use guitar_online.Store.Ends.{
  Ends, Ends-pure, Ends-raise, Ends-if, Ends-gets, Ends-or_raise, Ends-except_business, Checked,
}
use guitar_online.Scheduling.Weekly.Zone.{Zone, fixed_zone, ZoneInfo, known_zone, load_timezone}
use guitar_online.Scheduling.Weekly.Replace.{resolve_teacher_timezone}

-- What `load_timezone` does to the session: nothing, and its exceptions are the service's own.
abbrev IsQuiet : {A : Type 0} → Db → Result A → Db → Type 0
IsQuiet d (ok a) d' = d' ≡ d
IsQuiet d (err e) d' = (d' ≡ d) × IsBusiness e

known_zone-IsQuiet :
    (name : String) (o : Option Zone) (d : Db) → Ends (IsQuiet d) (known_zone name o) d
known_zone-IsQuiet name (some zone) d = Ends-pure zone refl
known_zone-IsQuiet name none d =
    Ends-if (same_text name "Europe/Moscow") _ _ (λ _. Ends-pure (fixed_zone 3) refl)
      λ _. Ends-raise (business "Teacher timezone is invalid") (refl, tt)

load_timezone-IsQuiet :
    (text : Str) (zone_info : ZoneInfo) (name : String) (d : Db)
    → Ends (IsQuiet d) (load_timezone text zone_info name) d
unfolding load_timezone
load_timezone-IsQuiet text zone_info name d =
    let normalized = text.strip name in
    let upper = text.upper normalized in
    Ends-if (not (is_nonempty normalized)) _ _
      (λ _. Ends-raise (business "Teacher timezone is invalid") (refl, tt))
      λ _.
        Ends-if (same_text upper "UTC" || (same_text upper "ETC/UTC" || same_text upper "GMT")) _ _
          (λ _. Ends-pure (fixed_zone 0) refl)
          λ _. known_zone-IsQuiet normalized (zone_info normalized) d

resolve-Checked :
    (text : Str) (zone_info : ZoneInfo) (teacher_id : ℕ) (d : Db)
    → Ends (Checked d (λ _. Unit {0})) (resolve_teacher_timezone text zone_info teacher_id) d
unfolding resolve_teacher_timezone
resolve-Checked text zone_info teacher_id d = Ends-gets _ _ (
    Ends-or_raise _ _ _ (λ _. refl)
      λ name _.
        Ends-except_business _ _ (IsQuiet d) (load_timezone-IsQuiet text zone_info name d)
          (λ zone d' same. (same, tt)) (λ e d' q. q.1)
          λ message d' q. Ends-raise (business "Teacher timezone is invalid") q.0)

-- What a check has returned.
known :
    {A : Type 0} (d d' : Db) (r : Result A)
    → Checked d (λ _. Unit {0}) r d'
    → Checked d (λ a. r ≡ ok a) r d'
known d d' (ok a) h = (h.0, refl)
known d d' (err e) h = h

pub resolve-Known :
    (text : Str) (zone_info : ZoneInfo) (teacher_id : ℕ) (d : Db)
    → Ends
        (Checked d (λ zone. (resolve_teacher_timezone text zone_info teacher_id d).0 ≡ ok zone))
        (resolve_teacher_timezone text zone_info teacher_id)
        d
resolve-Known text zone_info teacher_id d = record {
  at = known d _ _ (resolve-Checked text zone_info teacher_id d).at;
}
