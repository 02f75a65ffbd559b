-- ===== src/Examples/Crypto.antt =====
-- The theorems about encrypted columns, with a cipher that only pads.
use pingcast.Prelude.{
  ℕ, zero, suc, none, false, [], ◌∷◌, ◌++◌, Text, codes, length-append, ◌≡◌, refl, arith,
}
use pingcast.Prelude.Strings.{trim_space, trim_left}
use pingcast.Error.{ok}
use pingcast.Crypto.{
  Cipher, IsCipher, Encryptor, encrypt, decrypt, re_encrypt, needs_re_encryption, parse_keys_env,
  parse_parts, parse_part,
}
use pingcast.Crypto.RoundTrip.{re_encrypt-rotated}

abbrev zeros : ℕ → Text
zeros zero = []
zeros (suc n) = 0 ∷ zeros n

-- The tag of 16 bytes stands first.
abbrev tag : Text
tag = zeros 16

abbrev after_tag : ℕ → Text → Text
after_tag zero s = s
after_tag (suc n) [] = []
after_tag (suc n) (b ∷ s) = after_tag n s

abbrev cipher : Cipher
cipher = record {
  new_gcm = λ key. none;
  seal = λ key nonce plaintext ad. tag ++ plaintext;
  unseal = λ key nonce ciphertext ad. ok (after_tag 16 ciphertext);
  encode = λ s. s;
  decode = λ s. ok s;
}

cipher-IsCipher : IsCipher cipher
cipher-IsCipher = record {
  unseal-seal = λ key nonce plaintext ad. refl;
  length-seal = λ key nonce plaintext ad. omega (arith, length-append tag plaintext);
  decode-encode = λ bytes. refl;
}

abbrev key : ℕ → Text
key b = b ∷ zeros 31

abbrev old_encryptor : Encryptor
old_encryptor = record { primary = 1; keys = (1, key 7) ∷ [] }

abbrev new_keys : Encryptor
new_keys = record { primary = 2; keys = (2, key 9) ∷ (1, key 7) ∷ [] }

re_encrypt-rotated_example :
    (stored : Text) × (encoded : Text) × (encrypt cipher
        (ok (zeros 12))
        old_encryptor
        (codes "secret")
      ≡ ok stored)
    × (re_encrypt cipher (ok (zeros 12)) new_keys stored ≡ ok encoded)
    × (needs_re_encryption cipher new_keys encoded ≡ false)
    × (re_encrypt cipher (ok []) new_keys encoded ≡ ok encoded)
    × (decrypt cipher new_keys encoded ≡ ok (codes "secret"))
re_encrypt-rotated_example =
    re_encrypt-rotated cipher cipher-IsCipher old_encryptor new_keys (key 7) (key 9) (zeros 12)
      (zeros 12) (codes "secret") (ok []) refl refl refl refl refl refl

-- A key whose text is its bytes.
abbrev letters : Text
letters = codes "abcdefghijklmnopqrstuvwxyz012345"

abbrev one_key : Encryptor
one_key = record { primary = 1; keys = (1, letters) ∷ [] }

keys_parse : parse_keys_env (codes "1:abcdefghijklmnopqrstuvwxyz012345") ≡ ok ((1, letters) ∷ [])
unfolding parse_keys_env parse_parts parse_part trim_space trim_left
keys_parse = refl
