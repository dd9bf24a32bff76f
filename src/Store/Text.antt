-- ===== src/Store/Text.antt =====
-- Python's `str`, whose Unicode methods are parameters.
use guitar_online.Base.{Bool, true, false, String}

-- What the services use of Python's `str`: `s.strip()`, `s.upper()`, `s.lower()`.
pub record Str : Type 0 where
  pub strip : String → String
  pub upper : String → String
  pub lower : String → String

-- `if s`
abbrev pub is_nonempty : String → Bool
is_nonempty String.[] = false
is_nonempty (String.◌∷◌ c s) = true
