-- ===== src/Lessons/Moderation.antt =====
-- app/modules/lessons/moderation.py. The engine of Python's `re` is a parameter.
use text.Mathlib.Text.{find?}
use guitar_online.Base.{
  Bool, true, false, ◌&&◌, ◌||◌, Option, none, some, List, [], ◌∷◌, String, if◌then◌else◌,
}
use guitar_online.Store.Session.{Exec, business, raise_if, ◌>>◌}
use guitar_online.Store.Text.{Str, is_nonempty}

-- Whether `re.compile(pattern).search(text)` finds something.
abbrev pub Search : Type 0
Search = String → String → Bool

abbrev pub email_re : String
email_re = "[A-Za-z0-9._%+-]+@[A-Za-z0-9.-]+\\.[A-Za-z]{2,}"

abbrev pub phone_re : String
phone_re = "\\+?\\d[\\d\\s().-]{7,}\\d"

abbrev pub handle_re : String
handle_re = "@\\w{3,}"

abbrev pub contact_keywords : List String
contact_keywords =
    "telegram" ∷ "whatsapp" ∷ "viber" ∷ "signal" ∷ "discord" ∷ "skype" ∷ "contact" ∷ "phone"
    ∷ "email" ∷ "mail" ∷ "dm me" ∷ []

abbrev pub contact_link_markers : List String
contact_link_markers =
    "t.me/" ∷ "telegram.me/" ∷ "wa.me/" ∷ "whatsapp.com/" ∷ "discord.gg/" ∷ "skype:" ∷ "mailto:"
    ∷ "tel:" ∷ []

-- `part in text`
abbrev pub contains_text : String → String → Bool
contains_text part text = elim (find? text part) [ none ↦ false | some at ↦ true ]

unfoldable pub contains_any : List String → String → Bool
contains_any [] text = false
contains_any (part ∷ parts) text =
    let rest = contains_any parts text in if contains_text part text then true else rest

module _ (text : Str) (search : Search) where
  abbrev pub contains_contact_pattern : String → Bool
  contains_contact_pattern value =
      search email_re value
      || (search phone_re value
          || (search handle_re value || contains_any contact_keywords (text.lower value)))

  -- `value and _contains_contact_pattern(value)`
  abbrev pub is_restricted : Option String → Bool
  is_restricted none = false
  is_restricted (some value) = is_nonempty value && contains_contact_pattern value

  abbrev pub is_contact_link : String → Bool
  is_contact_link link =
      let normalized = text.lower (text.strip link) in
      is_nonempty normalized && contains_any contact_link_markers normalized

  unfoldable pub any_contact_link : List String → Bool
  any_contact_link [] = false
  any_contact_link (link ∷ links) =
      let rest = any_contact_link links in if is_contact_link link then true else rest

  abbrev pub contact_block_message : String
  contact_block_message = "Report contains restricted contact information"

  unfoldable pub validate_report_content :
      Option String → Option String → List String → Exec (Unit {0})
  validate_report_content notes homework links = do
    raise_if (is_restricted notes) (business contact_block_message)
    raise_if (is_restricted homework) (business contact_block_message)
    raise_if (any_contact_link links) (business contact_block_message)
