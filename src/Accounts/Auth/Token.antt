-- ===== src/Accounts/Auth/Token.antt =====
-- Session tokens: the random bytes can be read back from the token, so different bytes give
-- different tokens.
use pingcast.Prelude.{
  ℕ, ◌+◌, ◌-◌, ◌*◌, ◌/◌, ◌%◌, ◌<◌, ltb, if◌then◌else◌, List, [], ◌∷◌, All, length, Text, ◌≡◌, refl,
  arith,
}
use pingcast.Error.{ok}
use pingcast.Store.World.{World}
use pingcast.Store.Exec.{◌>>=◌}
use pingcast.Accounts.Auth.{Crypto, hex_digit, hex, generate_token}

-- The value of a hexadecimal digit, and the bytes of a text of them.
abbrev pub digit_value : ℕ → ℕ
digit_value c = if ltb c 58 then c - 48 else c - 87

abbrev pub unhex : Text → List ℕ
unhex [] = []
unhex (c ∷ []) = []
unhex (c ∷ d ∷ cs) = (16 * digit_value c + digit_value d) ∷ unhex cs

digit_value-hex_digit : (n : ℕ) → n < 16 → digit_value (hex_digit n) ≡ n
digit_value-hex_digit n h = ground arith

unhex-hex : (bs : List ℕ) → All (λ b. b < 256) bs → unhex (hex bs) ≡ bs
unhex-hex [] h = refl
unhex-hex (b ∷ bs) (below, h) =
    let high = digit_value-hex_digit (b / 16) (omega arith) in
    let low = digit_value-hex_digit (b % 16) (omega arith) in
    let byte : 16 * (b / 16) + b % 16 ≡ b = omega arith in rw (high, low, unhex-hex bs h, byte) refl

length-hex : (bs : List ℕ) → length (hex bs) ≡ 2 * length bs
length-hex [] = refl
length-hex (b ∷ bs) = omega (arith, length-hex bs)

-- If the source of randomness gives 32 bytes, a token of 64 characters is generated, from which
-- those bytes can be read back.
pub generate_token-unhex :
    (c : Crypto) (w : World) (bs : List ℕ)
    → c.read_random 32 ≡ ok bs
    → length bs ≡ 32
    → All (λ b. b < 256) bs
    → (generate_token c w ≡ (ok (hex bs), w)) × (length (hex bs) ≡ 64) × (unhex (hex bs) ≡ bs)
unfolding generate_token ◌>>=◌
generate_token-unhex c w bs e n h = (rw e refl, omega (arith, length-hex bs), unhex-hex bs h)
