-- ===== src/Crypto/RoundTrip.antt =====
-- What was encrypted can be decrypted, also after a rotation of the keys.
use pingcast.Prelude.{
  ℕ, zero, suc, ltb, ◌==◌, ==_refl, false, not, some, [], ◌∷◌, ◌++◌, Text, length, length-append,
  ◌≡◌, refl, ◌∙◌, ap, arith,
}
use pingcast.Error.{Result, ok}
use pingcast.Crypto
use pingcast.Crypto.{
  Cipher, IsCipher, Encryptor, key_of, encrypt, decrypt, needs_re_encryption, re_encrypt,
}

take-append : (n : ℕ) (s t : Text) → length s ≡ n → Crypto.take n (s ++ t) ≡ s
take-append zero [] t h = refl
take-append zero (b ∷ s) t h = absurd (omega (arith, h))
take-append (suc n) [] t h = absurd (omega (arith, h))
take-append (suc n) (b ∷ s) t h = ap (λ r. b ∷ r) (take-append n s t (omega (arith, h)))

drop-append : (n : ℕ) (s t : Text) → length s ≡ n → Crypto.drop n (s ++ t) ≡ t
drop-append zero [] t h = refl
drop-append zero (b ∷ s) t h = absurd (omega (arith, h))
drop-append (suc n) [] t h = absurd (omega (arith, h))
drop-append (suc n) (b ∷ s) t h = drop-append n s t (omega (arith, h))

decrypt-decoded :
    (c : Cipher) (e : Encryptor) (encoded bytes : Text)
    → c.decode encoded ≡ ok bytes
    → decrypt c e encoded ≡ Crypto.parsed c e bytes
unfolding decrypt
decrypt-decoded c e encoded bytes h = rw (h, decrypt) refl

module _ (c : Cipher) (laws : IsCipher c) where
  opened-sealed :
      (version : ℕ) (key nonce plaintext : Text)
      → length nonce ≡ 12
      → Crypto.opened c version (nonce ++ c.seal key nonce plaintext (version ∷ [])) (some key)
        ≡ ok plaintext
  opened-sealed version key nonce plaintext n =
      let ct = c.seal key nonce plaintext (version ∷ []) in
      rw (take-append 12 nonce ct n, drop-append 12 nonce ct n, Crypto.opened)
        (laws.unseal-seal key nonce plaintext (version ∷ []))

  decrypt-sealed :
      (e e' : Encryptor) (key nonce plaintext : Text)
      → length nonce ≡ 12
      → key_of e.primary e'.keys ≡ some key
      → decrypt c e' (Crypto.sealed e c key nonce plaintext) ≡ ok plaintext
  decrypt-sealed e e' key nonce plaintext n k =
      let ct = c.seal key nonce plaintext (e.primary ∷ []) in
      let bytes = e.primary ∷ (nonce ++ ct) in
      let long : ltb (suc (length (nonce ++ ct))) 29 ≡ false =
        ground (
          arith,
          length-append nonce ct,
          laws.length-seal key nonce plaintext (e.primary ∷ []),
          n,
        ) in
      decrypt-decoded c e' (Crypto.sealed e c key nonce plaintext) bytes (laws.decode-encode bytes)
      ∙ rw (long, k) (opened-sealed e.primary key nonce plaintext n)

  needs_re_encryption-sealed :
      (e e' : Encryptor) (key nonce plaintext : Text)
      → needs_re_encryption c e' (Crypto.sealed e c key nonce plaintext)
        ≡ not (e.primary == e'.primary)
  unfolding needs_re_encryption
  needs_re_encryption-sealed e e' key nonce plaintext =
      rw
        (
          laws.decode-encode (e.primary ∷ (nonce ++ c.seal key nonce plaintext (e.primary ∷ []))),
          needs_re_encryption,
        )
        refl

encrypt-sealed :
    (c : Cipher) (e : Encryptor) (key nonce plaintext : Text)
    → key_of e.primary e.keys ≡ some key
    → encrypt c (ok nonce) e plaintext ≡ ok (Crypto.sealed e c key nonce plaintext)
unfolding encrypt
encrypt-sealed c e key nonce plaintext k = rw (k, encrypt) refl

-- What an encryptor encrypts, any encryptor that has the same key under its primary version decrypts,
-- also one with another primary version: so texts stay readable over a rotation of the keys, if the
-- cipher and base64 can be inverted and the nonce has its 12 bytes.
decrypt-encrypt :
    (c : Cipher) (laws : IsCipher c) (e e' : Encryptor) (key nonce plaintext : Text)
    → length nonce ≡ 12
    → key_of e.primary e.keys ≡ some key
    → key_of e.primary e'.keys ≡ some key
    → (encoded : Text) × (encrypt c (ok nonce) e plaintext ≡ ok encoded)
      × (decrypt c e' encoded ≡ ok plaintext)
decrypt-encrypt c laws e e' key nonce plaintext n k k' = (
  Crypto.sealed e c key nonce plaintext,
  encrypt-sealed c e key nonce plaintext k,
  decrypt-sealed c laws e e' key nonce plaintext n k',
)

-- The rotation of a stored text: what an encryptor stored, another one with a new primary version
-- that still has the old key re-encrypts; what it gives no longer needs that, is left as it is by
-- another re-encryption, and decrypts to the same plaintext.
pub re_encrypt-rotated :
    (c : Cipher) (laws : IsCipher c) (e e' : Encryptor) (old new n n' plaintext : Text)
    (random : Result Text)
    → length n ≡ 12
    → length n' ≡ 12
    → key_of e.primary e.keys ≡ some old
    → key_of e.primary e'.keys ≡ some old
    → key_of e'.primary e'.keys ≡ some new
    → (e.primary == e'.primary) ≡ false
    → (stored : Text) × (encoded : Text) × (encrypt c (ok n) e plaintext ≡ ok stored)
      × (re_encrypt c (ok n') e' stored ≡ ok encoded)
      × (needs_re_encryption c e' encoded ≡ false)
      × (re_encrypt c random e' encoded ≡ ok encoded)
      × (decrypt c e' encoded ≡ ok plaintext)
unfolding re_encrypt
re_encrypt-rotated c laws e e' old new n n' plaintext random l l' k₀ k k' d =
    let fresh : needs_re_encryption c e' (Crypto.sealed e' c new n' plaintext) ≡ false =
      needs_re_encryption-sealed c laws e' e' new n' plaintext ∙ ap not (==_refl e'.primary) in
    (
      Crypto.sealed e c old n plaintext,
      Crypto.sealed e' c new n' plaintext,
      encrypt-sealed c e old n plaintext k₀,
      rw
          (
            needs_re_encryption-sealed c laws e e' old n plaintext,
            d,
            decrypt-sealed c laws e e' old n plaintext l k,
          )
          (encrypt-sealed c e' new n' plaintext k'),
      fresh,
      rw fresh refl,
      decrypt-sealed c laws e' e' new n' plaintext l' k',
    )
