-- ===== src/Config/Position.antt =====
-- The line and the column of a TOML error, and one pass over the text that counts both.
use quotio_cli.Base.{
  ℕ, ◌+◌, ◌-◌, ◌≤◌, ◌<◌, String, ◌≡◌, refl, ap, sym, some, err, chars, utf8, leb, List, [], ◌∷◌,
  ◌++◌, false, arith, any, count, length, ◌==◌, nat_eq, if◌then◌else◌, Bool-cases, inl, inr,
}
use mathlib.Core.Path.{ap₂}
use quotio_cli.Config.{slice_to, last_line, position, parse, Toml, parse_error}

-- A line feed starts the next line; any other code point takes one column.
abbrev pub advance : ℕ × ℕ → ℕ → ℕ × ℕ
advance (line, column) c = if c == 10 then (line + 1, 1) else (line, column + 1)

abbrev pub scan : ℕ × ℕ → List ℕ → ℕ × ℕ
scan at [] = at
scan at (c ∷ cs) = scan (advance at c) cs

-- A text that starts at the column after `column`.
abbrev ends : ℕ → ℕ → List ℕ → ℕ × ℕ
ends line column cs = (
  line + count (λ c. c == 10) cs,
  (if any (λ c. c == 10) cs then 1 else column) + length (last_line cs),
)

last_line-plain : (cs : List ℕ) → any (λ c. c == 10) cs ≡ false → last_line cs ≡ cs
unfolding last_line
last_line-plain [] h = refl
last_line-plain (c ∷ cs) h = ground arith

scan-ends : (line column : ℕ) (cs : List ℕ) → scan (line, column) cs ≡ ends line column cs
unfolding last_line
scan-ends line column [] = ap₂ (λ l c. (l, c)) (omega arith) (omega arith)
scan-ends line column (c ∷ cs) = elim (Bool-cases (c == 10)) [
  | inl feed ↦
      rw (feed, scan-ends (line + 1) 1 cs)
        (ap₂ (λ l c. (l, c)) (omega arith) (ground (arith, last_line-plain cs)))
  | inr plain ↦
      rw (plain, scan-ends line (column + 1) cs)
        (ap₂ (λ l c. (l, c)) (omega arith) (ground (arith, last_line-plain cs)))
]

position-scan : (prefix : List ℕ) → position prefix ≡ scan (1, 1) prefix
unfolding position
position-scan prefix =
    rw (scan-ends 1 1 prefix) (ap₂ (λ l c. (l, c)) (omega arith) (ground (arith)))

-- The number of bytes of a text.
abbrev pub total : List ℕ → ℕ
total [] = 0
total (c ∷ cs) = length (utf8 c) + total cs

-- The longest beginning that has at most `end` bytes ends before `rest`.
abbrev pub IsEnd : ℕ → List ℕ → List ℕ → Type 0
IsEnd end front [] = total front ≤ end
IsEnd end front (c ∷ cs) = (total front ≤ end) × (end < total front + length (utf8 c))

IsEnd-step :
    (end c : ℕ) (front rest : List ℕ)
    → length (utf8 c) ≤ end
    → IsEnd (end - length (utf8 c)) front rest
    → IsEnd end (c ∷ front) rest
IsEnd-step end c front [] fits h = omega arith
IsEnd-step end c front (d ∷ rest) fits (low, high) = (omega arith, omega arith)

slice_to-IsEnd :
    (end : ℕ) (cs : List ℕ)
    → (rest : List ℕ) × (slice_to end cs ++ rest ≡ cs) × IsEnd end (slice_to end cs) rest
unfolding slice_to
slice_to-IsEnd end [] = ([], refl, omega arith)
slice_to-IsEnd end (c ∷ cs) = elim (Bool-cases (leb (length (utf8 c)) end)) [
  | inl fits ↦
      let (rest, same, at) = slice_to-IsEnd (end - length (utf8 c)) cs in
      rw fits (rest, ap (λ ds. c ∷ ds) same, IsEnd-step end c _ rest (ground arith) at)
  | inr long ↦ rw long (c ∷ cs, refl, (omega arith, ground arith))
]

-- Where TOML refuses a text at a byte, the error of `parse` names the line and the column that
-- one pass over the text before this byte counts, from line 1 and column 1, a line feed starting
-- the next line: the text before the byte is the longest beginning with no more bytes than that.
pub parse-located :
    {F : Type 0} (T : Toml F) (input : String) (start : ℕ)
    → T.read input ≡ err (some start)
    → (front rest : List ℕ) × (front ++ rest ≡ chars input)
      × IsEnd start front rest
      × (parse T input ≡ err (parse_error (scan (1, 1) front).0 (scan (1, 1) front).1))
unfolding parse
parse-located T input start h =
    let (rest, same, at) = slice_to-IsEnd start (chars input) in
    (
      slice_to start (chars input),
      rest,
      same,
      at,
      rw (h, sym (position-scan (slice_to start (chars input)))) refl,
    )
