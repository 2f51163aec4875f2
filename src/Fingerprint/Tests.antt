-- ===== src/Fingerprint/Tests.antt =====
-- The fingerprint of small lists.
use quotio_cli.Base.{ℕ, ◌%◌, ◌<◌, String, ◌≡◌, refl, List, [], ◌∷◌, All, arith, byte_len}
use quotio_cli.Fingerprint.Injective.{fingerprint_injective}

-- A digest of bytes that forgets nothing of them.
digest : List ℕ → List ℕ
digest [] = []
digest (b ∷ bs) = (b % 256) ∷ digest bs

digest_octets : (m : List ℕ) → All (λ b. b < 256) (digest m)
unfolding digest
digest_octets [] = tt
digest_octets (b ∷ bs) = (omega arith, digest_octets bs)

abbrev parts : List String
parts = "ab" ∷ "c" ∷ []

fingerprint_injective_example : parts ≡ parts
unfolding byte_len
fingerprint_injective_example =
    fingerprint_injective digest parts parts digest_octets (λ same. refl)
      (omega arith, (omega arith, tt)) (omega arith, (omega arith, tt)) refl
