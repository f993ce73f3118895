-- ===== src/Prelude/Texts.antt =====
-- Tests on the characters of a text.
use Prim.Native.Nat.{ℕ}
use Prim.Native.String.{String, [], ◌∷◌}
use Prim.Native.Char.{code}
use mathlib.Core.Bool.{Bool, true, false, ◌&&◌, ◌||◌}
use mathlib.Core.Option.{Option, none, some}
use sentinel_auth.Prelude.Tests.{leb, nat_beq, if◌then◌else◌}
use sentinel_auth.Prelude.Classes.{◌==◌, string_eq}

abbrev pub all_chars : (ℕ → Bool) → String → Bool
all_chars p [] = true
all_chars p (c ∷ s) = p (code c) && all_chars p s

abbrev pub has_char : ℕ → String → Bool
has_char n [] = false
has_char n (c ∷ s) = nat_beq (code c) n || has_char n s

abbrev in_range : ℕ → ℕ → ℕ → Bool
in_range low high n = leb low n && leb n high

-- A letter or a digit of ASCII.
abbrev pub is_alphanumeric : ℕ → Bool
is_alphanumeric n = in_range 48 57 n || in_range 65 90 n || in_range 97 122 n

-- A text that is neither missing nor empty.
abbrev pub given : Option String → Option String
given none = none
given (some s) = if s == "" then none else some s
