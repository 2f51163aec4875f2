-- ===== src/Fingerprint/Injective.antt =====
-- Two fingerprints are equal only for equal parts, as far as SHA-256 has no collision.
use Prim.Native.Char.{Char, char, code}
use text.Mathlib.TextEquality.{Char-path}
use text.Mathlib.TextLemmas.{head-eq_of_cons-eq, tail-eq_of_cons-eq, cons≢nil, nil≢cons}
use quotio_cli.Base.{
  ℕ, zero, suc, String, ◌+◌, ◌/◌, ◌%◌, ◌^◌, ◌<◌, ◌≡◌, ◌≢◌, refl, sym, ap, Bool, true, false, List,
  [], ◌∷◌, ◌++◌, arith, length, All, bytes, byte_len, utf8, leb, ==_iff, ◌==◌, nat_eq,
  if◌then◌else◌,
}
use native.Mathlib.Decide.{ℕ_discrete}
use mathlib.Core.Path.{ap₂}
use quotio_cli.Fingerprint.{be_bytes, message, hex_digit, hex, fingerprint}

-- The list that follows the first `n` entries is determined.
append-split :
    (xs ys us vs : List ℕ) → length xs ≡ length ys → xs ++ us ≡ ys ++ vs → (xs ≡ ys) × (us ≡ vs)
append-split [] [] us vs e h = (refl, h)
append-split [] (y ∷ ys) us vs e h = absurd (omega arith)
append-split (x ∷ xs) [] us vs e h = absurd (omega arith)
append-split (x ∷ xs) (y ∷ ys) us vs e h = ground (arith, append-split xs ys us vs)

be_bytes_injective : (m n : ℕ) → m < 2 ^ 64 → n < 2 ^ 64 → be_bytes m ≡ be_bytes n → m ≡ n
unfolding be_bytes
be_bytes_injective m n p q h = ground arith

-- UTF-8 is a prefix code.
utf8_split :
    (c d : ℕ) (us vs : List ℕ)
    → c < 0x110000
    → d < 0x110000
    → utf8 c ++ us ≡ utf8 d ++ vs
    → (c ≡ d) × (us ≡ vs)
unfolding utf8
utf8_split c d us vs p q h = ground arith

code-lt : (c : Char) → code c < 0x110000
code-lt (char n s) = ground arith

utf8-ne-nil : (c : ℕ) (us : List ℕ) → utf8 c ++ us ≢ []
unfolding utf8
utf8-ne-nil c us = ground arith

bytes_injective : (s t : String) → bytes s ≡ bytes t → s ≡ t
unfolding bytes
bytes_injective String.[] String.[] h = refl
bytes_injective String.[] (String.◌∷◌ d t) h = absurd (utf8-ne-nil (code d) (bytes t) (sym h))
bytes_injective (String.◌∷◌ c s) String.[] h = absurd (utf8-ne-nil (code c) (bytes s) h)
bytes_injective (String.◌∷◌ c s) (String.◌∷◌ d t) h =
    let (e, rest) = utf8_split (code c) (code d) (bytes s) (bytes t) (code-lt c) (code-lt d) h in
    ap₂ String.◌∷◌ (Char-path c d e) (bytes_injective s t rest)

length-be_bytes : (m n : ℕ) → length (be_bytes m) ≡ length (be_bytes n)
unfolding be_bytes
length-be_bytes m n = refl

abbrev pub IsSized : List String → Type 0
IsSized = All (λ part. byte_len part < 2 ^ 64)

message-ne-nil : (p : String) (ps : List String) → message (p ∷ ps) ≢ []
unfolding message
message-ne-nil p ps = ground arith

message_injective :
    (ps qs : List String) → IsSized ps → IsSized qs → message ps ≡ message qs → ps ≡ qs
unfolding message
message_injective [] [] p q h = refl
message_injective [] (y ∷ qs) p q h = absurd (message-ne-nil y qs (sym h))
message_injective (x ∷ ps) [] p q h = absurd (message-ne-nil x ps h)
message_injective (x ∷ ps) (y ∷ qs) (p, p') (q, q') h =
    let (lens, rest) = append-split _ _ _ _ (length-be_bytes (byte_len x) (byte_len y)) h in
    let same_len = be_bytes_injective _ _ p q lens in
    let (same, more) =
      append-split (bytes x) (bytes y) (message ps) (message qs) (unfold byte_len in same_len)
        rest in
    ap₂ ◌∷◌ (bytes_injective x y same) (message_injective ps qs p' q' more)

digits_pass : (ℕ → Bool) → ℕ → Bool
digits_pass test zero = true
digits_pass test (suc bound) = if test bound then digits_pass test bound else false

digits_pass_at :
    (test : ℕ → Bool) (bound digit : ℕ)
    → digit < bound
    → digits_pass test bound ≡ true
    → test digit ≡ true
unfolding digits_pass
digits_pass_at test zero digit small passed = absurd (omega arith)
digits_pass_at test (suc bound) digit small passed = ground (arith, digits_pass_at test bound digit)

abbrev hex_code : ℕ → ℕ
hex_code n = if leb n 9 then 48 + n else 87 + n

hex_table : digits_pass (λ n. code (hex_digit n) == hex_code n) 16 ≡ true
unfolding digits_pass hex_digit ℕ_discrete
hex_table = refl

code-hex_digit : (n : ℕ) → n < 16 → code (hex_digit n) ≡ hex_code n
code-hex_digit n h =
    (==_iff (code (hex_digit n)) (hex_code n)).0
      (digits_pass_at (λ d. code (hex_digit d) == hex_code d) 16 n h hex_table)

hex_digit_injective : (m n : ℕ) → m < 16 → n < 16 → hex_digit m ≡ hex_digit n → m ≡ n
hex_digit_injective m n p q h = ground (arith, code-hex_digit m p, code-hex_digit n q, ap code h)

hex_injective :
    (bs cs : List ℕ) → All (λ b. b < 256) bs → All (λ c. c < 256) cs → hex bs ≡ hex cs → bs ≡ cs
unfolding hex
hex_injective [] [] p q h = refl
hex_injective [] (c ∷ cs) p q h = absurd (nil≢cons h)
hex_injective (b ∷ bs) [] p q h = absurd (cons≢nil h)
hex_injective (b ∷ bs) (c ∷ cs) (p, ps) (q, qs) h =
    let upper =
      hex_digit_injective (b / 16) (c / 16) (omega arith) (omega arith) (head-eq_of_cons-eq h) in
    let later = tail-eq_of_cons-eq h in
    let lower =
      hex_digit_injective (b % 16) (c % 16) (omega arith) (omega arith)
        (head-eq_of_cons-eq later) in
    ap₂ ◌∷◌ (omega arith) (hex_injective bs cs ps qs (tail-eq_of_cons-eq later))

-- Where SHA-256 gives bytes and does not send the two messages to one digest, two lists of
-- parts, each part shorter than 2^64 bytes, with the same fingerprint are the same list.
pub fingerprint_injective :
    (sha256 : List ℕ → List ℕ) (ps qs : List String)
    → ((m : List ℕ) → All (λ b. b < 256) (sha256 m))
    → (sha256 (message ps) ≡ sha256 (message qs) → message ps ≡ message qs)
    → IsSized ps
    → IsSized qs
    → fingerprint sha256 ps ≡ fingerprint sha256 qs
    → ps ≡ qs
unfolding fingerprint
fingerprint_injective sha256 ps qs octets free p q h =
    message_injective ps qs p q (free (hex_injective _ _ (octets _) (octets _) h))
