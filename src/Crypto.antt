-- ===== src/Crypto.antt =====
-- internal/crypto/crypto.go: the encryption of columns, with versions of the key. The cipher
-- (AES-256-GCM), base64 and the source of randomness are libraries, and arguments here. A string of
-- bytes is a list of numbers, and a map is a list with the newest entry first.
pub mod RoundTrip
pub mod Keys
use pingcast.Prelude.{
  ℕ, zero, suc, ◌+◌, ◌*◌, ◌-◌, ltb, leb, ◌==◌, Bool, true, false, not, ◌&&◌, ◌||◌, if◌then◌else◌,
  Option, none, some, List, [], ◌∷◌, ◌++◌, find, any, all, keep, Text, length, is_empty, trim_space,
  ◌≡◌,
}
use pingcast.Prelude.Int.{ℤ, pos, negsuc}
use pingcast.Error.{Error, errorf, wrap, Result, ok, err}

-- The libraries: a cipher under a key of bytes, which takes a nonce, a text and the associated data,
-- and base64.
pub record Cipher : Type 0 where
  pub new_gcm : Text → Option Error
  pub seal : (key nonce plaintext ad : Text) → Text
  pub unseal : (key nonce ciphertext ad : Text) → Result Text
  pub encode : Text → Text
  pub decode : Text → Result Text

-- What the program relies on: a text that was sealed opens, under the same key, nonce and data, it is
-- 16 bytes longer when sealed, and base64 can be read back.
pub record IsCipher (c : Cipher) : Type 0 where
  pub unseal-seal :
      (key nonce plaintext ad : Text)
      → c.unseal key nonce (c.seal key nonce plaintext ad) ad ≡ ok plaintext
  pub length-seal :
      (key nonce plaintext ad : Text)
      → length (c.seal key nonce plaintext ad) ≡ length plaintext + 16
  pub decode-encode : (bytes : Text) → c.decode (c.encode bytes) ≡ ok bytes

-- `keys` holds the decoded keys.
pub record Encryptor : Type 0 where
  pub primary : ℕ
  pub keys : List (ℕ × Text)

abbrev pub key_of : {A : Type 0} → ℕ → List (ℕ × A) → Option A
key_of version keys = elim (find (λ k. k.0 == version) keys) [ none ↦ none | some k ↦ some k.1 ]

abbrev gcm : Text → Option Error → Result Text
gcm key none = ok key
gcm key (some e) = err (wrap "create cipher: %w" e)

-- The key of an AEAD: what `NewGCM` does with it is `seal` and `unseal`.
unfoldable pub new_aead : Cipher → Text → Result Text
new_aead c key_base64 = elim (c.decode key_base64) [
  | ok key ↦
      if not (length key == 32)
      then err (errorf "key must be 32 bytes, got %d")
      else gcm key (c.new_gcm key)
  | err e ↦ err (wrap "decode key: %w" e)
]

abbrev with_key : ℕ → Result Text → Result (List (ℕ × Text)) → Result (List (ℕ × Text))
with_key ver (err e) rest = err (wrap "key version %d: %w" e)
with_key ver (ok aead) (err e) = err e
with_key ver (ok aead) (ok keys) = ok ((ver, aead) ∷ keys)

unfoldable pub aead_keys : Cipher → List (ℕ × Text) → Result (List (ℕ × Text))
unfolding new_aead
aead_keys c [] = ok []
aead_keys c (k ∷ keys) =
    let rest = aead_keys c keys in
    if k.0 == 0 then err (errorf "version 0 is reserved") else with_key k.0 (new_aead c k.1) rest

unfoldable pub new_encryptor : Cipher → ℕ → List (ℕ × Text) → Result Encryptor
unfolding aead_keys
new_encryptor c primary_version keys =
    if length keys == 0
    then err (errorf "at least one key required")
    else if not (any (λ k. k.0 == primary_version) keys)
    then err (errorf "primary version %d not found in keys")
    else elim (aead_keys c keys) [
      | ok aeads ↦ ok (record { primary = primary_version; keys = aeads })
      | err e ↦ err e
    ]

-- The first byte, the nonce and the rest of a stored text.
abbrev sealed : Encryptor → Cipher → Text → Text → Text → Text
sealed e c key nonce plaintext =
    c.encode (e.primary ∷ nonce ++ c.seal key nonce plaintext (e.primary ∷ []))

-- The second argument is what the source of randomness gives for the 12 bytes of the nonce. A nil
-- AEAD would panic.
unfoldable pub encrypt : Cipher → Result Text → Encryptor → Text → Result Text
encrypt c random e plaintext = elim random [
  | err x ↦ err (wrap "generate nonce: %w" x)
  | ok nonce ↦ elim (key_of e.primary e.keys) [
    | none ↦ err (errorf "nil pointer dereference")
    | some key ↦ ok (sealed e c key nonce plaintext)
  ]
]

abbrev take : ℕ → Text → Text
take zero s = []
take (suc n) [] = []
take (suc n) (b ∷ s) = b ∷ take n s

abbrev drop : ℕ → Text → Text
drop zero s = s
drop (suc n) [] = []
drop (suc n) (b ∷ s) = drop n s

abbrev opened : Cipher → ℕ → Text → Option Text → Result Text
opened c version rest none = err (errorf "unknown key version %d")
opened c version rest (some key) = c.unseal key (take 12 rest) (drop 12 rest) (version ∷ [])

abbrev parsed : Cipher → Encryptor → Text → Result Text
parsed c e [] = err (errorf "ciphertext too short")
parsed c e (version ∷ rest) =
    if ltb (suc (length rest)) 29
    then err (errorf "ciphertext too short")
    else opened c version rest (key_of version e.keys)

unfoldable pub decrypt : Cipher → Encryptor → Text → Result Text
decrypt c e encoded = elim (c.decode encoded) [
  | err x ↦ err (wrap "decode ciphertext: %w" x)
  | ok bytes ↦ parsed c e bytes
]

abbrev other_version : Encryptor → Text → Bool
other_version e [] = true
other_version e (version ∷ rest) = not (version == e.primary)

unfoldable pub needs_re_encryption : Cipher → Encryptor → Text → Bool
needs_re_encryption c e encoded = elim (c.decode encoded) [
  | err x ↦ true
  | ok bytes ↦ other_version e bytes
]

unfoldable pub re_encrypt : Cipher → Result Text → Encryptor → Text → Result Text
unfolding needs_re_encryption decrypt encrypt
re_encrypt c random e encoded =
    if not (needs_re_encryption c e encoded)
    then ok encoded
    else elim (decrypt c e encoded) [ err x ↦ err x | ok plaintext ↦ encrypt c random e plaintext ]

-- `strings.Split` by one character.
abbrev on_head : ℕ → List Text → List Text
on_head c [] = (c ∷ []) ∷ []
on_head c (p ∷ ps) = (c ∷ p) ∷ ps

abbrev split : ℕ → Text → List Text
split sep [] = [] ∷ []
split sep (c ∷ s) = let rest = split sep s in if c == sep then [] ∷ rest else on_head c rest

abbrev behind : ℕ → Option (Text × Text) → Option (Text × Text)
behind c none = none
behind c (some p) = some (c ∷ p.0, p.1)

-- The text before and after the first such character.
abbrev cut_at : ℕ → Text → Option (Text × Text)
cut_at sep [] = none
cut_at sep (c ∷ s) = let rest = cut_at sep s in if c == sep then some ([], s) else behind c rest

abbrev is_digit : ℕ → Bool
is_digit c = leb 48 c && leb c 57

abbrev number : ℕ → Text → ℕ
number acc [] = acc
number acc (c ∷ s) = number (10 * acc + (c - 48)) s

abbrev unsigned : Text → Option ℕ
unsigned s = if not (is_empty s) && all is_digit s then some (number 0 s) else none

abbrev signed : Bool → Option ℕ → Option ℤ
signed minus none = none
signed true (some zero) = some (pos zero)
signed true (some (suc n)) = some (negsuc n)
signed false (some n) = some (pos n)

-- `strconv.Atoi`, without its error for numbers beyond 64 bits, which are refused below as well.
abbrev atoi : Text → Option ℤ
atoi [] = none
atoi (c ∷ s) =
    if c == 45
    then signed true (unsigned s)
    else if c == 43
    then signed false (unsigned s)
    else signed false (unsigned (c ∷ s))

-- `ver < 1 || ver > 255` is refused.
abbrev in_range : Option ℤ → Option ℕ
in_range none = none
in_range (some (negsuc n)) = none
in_range (some (pos n)) = if ltb n 1 || ltb 255 n then none else some n

abbrev assign : ℕ → Text → List (ℕ × Text) → List (ℕ × Text)
assign version key keys = (version, key) ∷ keep (λ k. not (k.0 == version)) keys

abbrev versioned : Text → Option ℕ → List (ℕ × Text) → Result (List (ℕ × Text))
versioned key none keys = err (errorf "invalid key version %q")
versioned key (some version) keys = ok (assign version key keys)

abbrev colon_cut : Option (Text × Text) → List (ℕ × Text) → Result (List (ℕ × Text))
colon_cut none keys = err (errorf "invalid key format %q, expected version:base64key")
colon_cut (some p) keys = versioned p.1 (in_range (atoi p.0)) keys

unfoldable pub parse_part : Text → List (ℕ × Text) → Result (List (ℕ × Text))
parse_part part keys =
    if is_empty (trim_space part) then ok keys else colon_cut (cut_at 58 (trim_space part)) keys

unfoldable pub parse_parts : List Text → List (ℕ × Text) → Result (List (ℕ × Text))
unfolding parse_part
parse_parts [] keys = ok keys
parse_parts (part ∷ parts) keys = elim (parse_part part keys) [
  | ok keys' ↦ parse_parts parts keys'
  | err e ↦ err e
]

abbrev not_empty : Result (List (ℕ × Text)) → Result (List (ℕ × Text))
not_empty (err e) = err e
not_empty (ok []) = err (errorf "no keys found")
not_empty (ok (k ∷ keys)) = ok (k ∷ keys)

unfoldable pub parse_keys_env : Text → Result (List (ℕ × Text))
unfolding parse_parts
parse_keys_env s = not_empty (parse_parts (split 44 s) [])
