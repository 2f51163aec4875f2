-- ===== src/Base/Text.antt =====
-- Texts: the methods of `str` and `char` of Rust's standard library that the source calls.
use Prim.Native.Nat.{ℕ, ◌+◌, ◌/◌, ◌%◌}
use Prim.Native.Char.{Char, code}
use Prim.Native.String.{String}
use mathlib.Core.Bool.{Bool, true, false, ◌&&◌, ◌||◌}
use mathlib.Core.List.{List, [], ◌∷◌, ◌++◌}
use mathlib.Core.Option.{Option, none, some}
use quotio_cli.Base.Tests.{ltb, leb, if◌then◌else◌}
use quotio_cli.Base.Lists.{length}

abbrev pub chars : String → List ℕ
chars String.[] = []
chars (String.◌∷◌ c s) = code c ∷ chars s

-- The UTF-8 form of a code point.
unfoldable pub utf8 : ℕ → List ℕ
utf8 c =
    if ltb c 128
    then c ∷ []
    else if ltb c 2048
    then (192 + c / 64) ∷ (128 + c % 64) ∷ []
    else if ltb c 65536
    then (224 + c / 4096) ∷ (128 + c / 64 % 64) ∷ (128 + c % 64) ∷ []
    else (240 + c / 262144) ∷ (128 + c / 4096 % 64) ∷ (128 + c / 64 % 64) ∷ (128 + c % 64) ∷ []

-- `as_bytes`
unfoldable pub bytes : String → List ℕ
unfolding utf8
bytes String.[] = []
bytes (String.◌∷◌ c s) = utf8 (code c) ++ bytes s

-- `len`
unfoldable pub byte_len : String → ℕ
unfolding bytes
byte_len s = length (bytes s)

abbrev pub is_empty : String → Bool
is_empty String.[] = true
is_empty (String.◌∷◌ c s) = false

-- `char::is_control`
unfoldable pub is_control : ℕ → Bool
is_control c = ltb c 32 || (leb 127 c && ltb c 160)

-- `u8::is_ascii_graphic`
unfoldable pub is_ascii_graphic : ℕ → Bool
is_ascii_graphic c = leb 33 c && leb c 126

unfoldable pub is_ascii_lowercase : ℕ → Bool
is_ascii_lowercase c = leb b'a' c && leb c b'z'

unfoldable pub is_ascii_digit : ℕ → Bool
is_ascii_digit c = leb b'0' c && leb c b'9'

unfoldable pub is_ascii_alphanumeric : ℕ → Bool
unfolding is_ascii_lowercase is_ascii_digit
is_ascii_alphanumeric c = is_ascii_lowercase c || (leb b'A' c && leb c b'Z') || is_ascii_digit c

-- `char::is_whitespace`: the code points with the property White_Space.
unfoldable pub is_whitespace : ℕ → Bool
is_whitespace c =
    (leb 9 c && leb c 13)
    || (leb 32 c && leb c 32)
    || (leb 0x85 c && leb c 0x85)
    || (leb 0xa0 c && leb c 0xa0)
    || (leb 0x1680 c && leb c 0x1680)
    || (leb 0x2000 c && leb c 0x200a)
    || (leb 0x2028 c && leb c 0x2029)
    || (leb 0x202f c && leb c 0x202f)
    || (leb 0x205f c && leb c 0x205f)
    || (leb 0x3000 c && leb c 0x3000)

unfoldable pub trim_start : String → String
unfolding is_whitespace
trim_start String.[] = String.[]
trim_start (String.◌∷◌ c s) =
    let rest = trim_start s in if is_whitespace (code c) then rest else String.◌∷◌ c s

-- `c` before a text whose end is trimmed.
unfoldable pub keep_end : Char → String → String
unfolding is_whitespace
keep_end c String.[] = if is_whitespace (code c) then String.[] else String.◌∷◌ c String.[]
keep_end c (String.◌∷◌ d s) = String.◌∷◌ c (String.◌∷◌ d s)

unfoldable pub trim_end : String → String
unfolding keep_end
trim_end String.[] = String.[]
trim_end (String.◌∷◌ c s) = keep_end c (trim_end s)

unfoldable pub trim : String → String
unfolding trim_start trim_end
trim s = trim_end (trim_start s)

abbrev pub append : String → String → String
append String.[] t = t
append (String.◌∷◌ c s) t = String.◌∷◌ c (append s t)

-- `==` of two code points.
abbrev pub same_code : ℕ → ℕ → Bool
same_code a b = leb a b && leb b a

unfoldable pub strip_prefix : String → String → Option String
strip_prefix String.[] s = some s
strip_prefix (String.◌∷◌ c p) String.[] = none
strip_prefix (String.◌∷◌ c p) (String.◌∷◌ d s) =
    if same_code (code c) (code d) then strip_prefix p s else none

-- `char::to_ascii_lowercase`
abbrev pub ascii_lower : ℕ → ℕ
ascii_lower c = if leb b'A' c && leb c b'Z' then c + 32 else c

unfoldable pub eq_ignore_ascii_case : String → String → Bool
eq_ignore_ascii_case String.[] String.[] = true
eq_ignore_ascii_case (String.◌∷◌ c s) (String.◌∷◌ d t) =
    same_code (ascii_lower (code c)) (ascii_lower (code d)) && eq_ignore_ascii_case s t
eq_ignore_ascii_case _ _ = false

abbrev push_front : Char → List String → List String
push_front c [] = String.◌∷◌ c String.[] ∷ []
push_front c (s ∷ ss) = String.◌∷◌ c s ∷ ss

-- `split` at one code point.
unfoldable pub split : ℕ → String → List String
split at String.[] = String.[] ∷ []
split at (String.◌∷◌ c s) =
    let rest = split at s in if same_code (code c) at then String.[] ∷ rest else push_front c rest
