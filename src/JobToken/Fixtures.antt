-- ===== src/JobToken/Fixtures.antt =====
-- A small code of one letter, for the tests.
use zagforge_mvp.Prelude.{ℕ, ◌+◌, ◌*◌, ◌%◌, ◌≡◌, false, [], ◌∷◌, arith, ◌==◌, All}
use zagforge_mvp.Prelude.Bytes.{Bytes}
use zagforge_mvp.JobToken.{Mac}

-- the sum of the bytes of a text, behind `n`
abbrev checksum : Bytes → ℕ → ℕ
checksum [] n = n
checksum (c ∷ s) n = checksum s (n * 31 + c)

abbrev hex_digit : ℕ → ℕ
hex_digit n = b'a' + n % 6

abbrev toy_mac : Bytes → Bytes → Bytes
toy_mac key payload = hex_digit (checksum payload (checksum key 0)) ∷ []

-- no letter is a colon
pub toy_mac-no_colon : (key payload : Bytes) → All (λ c. (c == 58) ≡ false) (toy_mac key payload)
toy_mac-no_colon key payload = (ground arith, tt)

abbrev pub toy : Mac
toy = record { mac = toy_mac; no_colon = toy_mac-no_colon }
