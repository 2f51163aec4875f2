-- ===== src/Fingerprint.antt =====
-- src/cache.rs: `fingerprint`, the digest under which cache entries, retry keys and refresh tokens
-- are filed. `ring::digest` with SHA-256 is the argument `sha256`, from bytes to bytes.
pub mod Injective
pub mod Tests
use Prim.Native.Char.{Char}
use quotio_cli.Base.{
  ℕ, zero, suc, String, ◌/◌, ◌%◌, ◌^◌, List, [], ◌∷◌, ◌++◌, leb, if◌then◌else◌, bytes, byte_len,
}

-- `u64::to_be_bytes`
be_bytes : ℕ → List ℕ
be_bytes n =
    (n / 2 ^ 56 % 256)
    ∷ (n / 2 ^ 48 % 256)
    ∷ (n / 2 ^ 40 % 256)
    ∷ (n / 2 ^ 32 % 256)
    ∷ (n / 2 ^ 24 % 256)
    ∷ (n / 2 ^ 16 % 256)
    ∷ (n / 2 ^ 8 % 256)
    ∷ (n % 256)
    ∷ []

-- What `digest.update` is fed with, in all: the length of each part before the part.
unfoldable pub message : List String → List ℕ
unfolding be_bytes byte_len
message [] = []
message (part ∷ parts) = be_bytes (byte_len part) ++ (bytes part ++ message parts)

char_at : ℕ → String → Char
char_at n String.[] = "0"
char_at zero (String.◌∷◌ c s) = c
char_at (suc n) (String.◌∷◌ c s) = char_at n s

hex_digit : ℕ → Char
unfolding char_at
hex_digit n = char_at n "0123456789abcdef"

-- `format!("{b:02x}")` of each byte, collected.
unfoldable pub hex : List ℕ → String
unfolding hex_digit
hex [] = String.[]
hex (b ∷ bs) = String.◌∷◌ (hex_digit (b / 16)) (String.◌∷◌ (hex_digit (b % 16)) (hex bs))

unfoldable pub fingerprint : (List ℕ → List ℕ) → List String → String
unfolding message hex
fingerprint sha256 parts = hex (sha256 (message parts))
