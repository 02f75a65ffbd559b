-- ===== src/Crypto/Keys.antt =====
-- The keys that a process starts with.
use pingcast.Prelude.{
  ℕ, ◌≤◌, ltb, ◌==◌, Bool, true, false, not, ◌||◌, if◌then◌else◌, Option, none, some, List, [], ◌∷◌,
  any, keep, All, Text, length, trim_space, is_empty, subst, ==_iff, ◌≡◌, refl, arith, Bool-cases,
  inl, inr,
}
use pingcast.Prelude.Int.{ℤ, pos, negsuc}
use pingcast.Error.{Error, errorf, wrap, Result, ok, err}
use pingcast.Crypto
use pingcast.Crypto.{
  Cipher, Encryptor, key_of, new_aead, aead_keys, new_encryptor, parse_part, parse_parts,
  parse_keys_env,
}

abbrev pub InRange : ℕ × Text → Type 0
InRange k = (1 ≤ k.0) × (k.0 ≤ 255)

All-keep : {A : Type 0} (P : A → Type 0) (q : A → Bool) (xs : List A) → All P xs → All P (keep q xs)
All-keep P q [] h = h
All-keep P q (x ∷ xs) h = elim (Bool-cases (q x)) [
  | inl e ↦ rw e (h.0, All-keep P q xs h.1)
  | inr e ↦ rw e (All-keep P q xs h.1)
]

-- What a result holds, where it is not an error.
abbrev Ok : {A : Type 0} → (A → Type 0) → Result A → Type 0
Ok P (ok a) = P a
Ok P (err e) = Unit

Ok-holds : {A : Type 0} (P : A → Type 0) (r : Result A) (a : A) → Ok P r → r ≡ ok a → P a
Ok-holds P r a h e = subst (Ok P) e h

versioned-InRange :
    (key : Text) (o : Option ℤ) (keys : List (ℕ × Text))
    → All InRange keys
    → Ok (All InRange) (Crypto.versioned key (Crypto.in_range o) keys)
versioned-InRange key none keys a = tt
versioned-InRange key (some (negsuc n)) keys a = tt
versioned-InRange key (some (pos n)) keys a = elim (Bool-cases (ltb n 1 || ltb 255 n)) [
  | inl e ↦ rw e tt
  | inr e ↦ rw e ((ground arith, ground arith), All-keep InRange (λ k. not (k.0 == n)) keys a)
]

colon_cut-InRange :
    (o : Option (Text × Text)) (keys : List (ℕ × Text))
    → All InRange keys
    → Ok (All InRange) (Crypto.colon_cut o keys)
colon_cut-InRange none keys a = tt
colon_cut-InRange (some p) keys a = versioned-InRange p.1 (Crypto.atoi p.0) keys a

parse_part-InRange :
    (part : Text) (keys : List (ℕ × Text))
    → All InRange keys
    → Ok (All InRange) (parse_part part keys)
unfolding parse_part
parse_part-InRange part keys a = elim (Bool-cases (is_empty (trim_space part))) [
  | inl e ↦ rw e a
  | inr e ↦ rw e (colon_cut-InRange (Crypto.cut_at 58 (trim_space part)) keys a)
]

parse_parts-InRange :
    (parts : List Text) (keys : List (ℕ × Text))
    → All InRange keys
    → Ok (All InRange) (parse_parts parts keys)
unfolding parse_parts
parse_parts-InRange [] keys a = a
parse_parts-InRange (part ∷ parts) keys a =
    by_result (parse_part part keys) (parse_parts-InRange parts) (parse_part-InRange part keys a)
  where
    by_result :
        (r : Result (List (ℕ × Text)))
        → ((keys' : List (ℕ × Text))
            → All InRange keys'
            → Ok (All InRange) (parse_parts parts keys'))
        → Ok (All InRange) r
        → Ok (All InRange) (elim r [ ok keys' ↦ parse_parts parts keys' | err e ↦ err e ])
    by_result (ok keys') next h = next keys' h
    by_result (err e) next h = tt

not_empty-InRange :
    (r : Result (List (ℕ × Text))) → Ok (All InRange) r → Ok (All InRange) (Crypto.not_empty r)
not_empty-InRange (err e) h = tt
not_empty-InRange (ok []) h = tt
not_empty-InRange (ok (k ∷ keys)) h = h

new_aead-length : (c : Cipher) (s : Text) → Ok (λ key. length key ≡ 32) (new_aead c s)
unfolding new_aead
new_aead-length c s = by_decode (c.decode s)
  where
    gcm-length :
        (key : Text) (o : Option Error)
        → length key ≡ 32
        → Ok (λ key. length key ≡ 32) (Crypto.gcm key o)
    gcm-length key none h = h
    gcm-length key (some e) h = tt

    by_decode :
        (r : Result Text)
        → Ok
            (λ key. length key ≡ 32)
            (elim r [
              | ok key ↦
                  if not (length key == 32)
                  then err (errorf "key must be 32 bytes, got %d")
                  else Crypto.gcm key (c.new_gcm key)
              | err e ↦ err (wrap "decode key: %w" e)
            ])
    by_decode (err e) = tt
    by_decode (ok key) = elim (Bool-cases (length key == 32)) [
      | inl e ↦ rw e (gcm-length key (c.new_gcm key) ((==_iff (length key) 32).0 e))
      | inr e ↦ rw e tt
    ]

abbrev pub HasKey : ℕ → List (ℕ × Text) → Type 0
HasKey version keys = (key : Text) × (key_of version keys ≡ some key) × (length key ≡ 32)

with_key-HasKey :
    (version ver : ℕ) (r : Result Text) (rest : Result (List (ℕ × Text)))
    → Ok (λ key. length key ≡ 32) r
    → ((ver == version) ≡ false → Ok (HasKey version) rest)
    → Ok (HasKey version) (Crypto.with_key ver r rest)
with_key-HasKey version ver (err e) rest l h = tt
with_key-HasKey version ver (ok key) (err e) l h = tt
with_key-HasKey version ver (ok key) (ok keys) l h = elim (Bool-cases (ver == version)) [
  | inl e ↦ (key, ground arith, l)
  | inr e ↦ let (key', q, l') = h e in (key', ground arith, l')
]

aead_keys-HasKey :
    (c : Cipher) (version : ℕ) (keys : List (ℕ × Text))
    → any (λ k. k.0 == version) keys ≡ true
    → Ok (HasKey version) (aead_keys c keys)
unfolding aead_keys
aead_keys-HasKey c version [] a = absurd (cc)
aead_keys-HasKey c version (k ∷ keys) a = elim (Bool-cases (k.0 == 0)) [
  | inl e ↦ rw e tt
  | inr e ↦ rw e (
      with_key-HasKey version k.0 (new_aead c k.1) (aead_keys c keys) (new_aead-length c k.1)
        (λ d. aead_keys-HasKey c version keys (ground arith)))
]

abbrev Encrypts : ℕ → Encryptor → Type 0
Encrypts primary e = (e.primary ≡ primary) × HasKey primary e.keys

new_encryptor-Encrypts :
    (c : Cipher) (primary : ℕ) (keys : List (ℕ × Text))
    → Ok (Encrypts primary) (new_encryptor c primary keys)
unfolding new_encryptor
new_encryptor-Encrypts c primary keys = elim (Bool-cases (length keys == 0)) [
  | inl e ↦ rw e tt
  | inr e ↦ elim (Bool-cases (any (λ k. k.0 == primary) keys)) [
    | inl a ↦ rw (e, a) (by_aeads (aead_keys c keys) (aead_keys-HasKey c primary keys a))
    | inr a ↦ rw (e, a) tt
  ]
]
  where
    by_aeads :
        (r : Result (List (ℕ × Text)))
        → Ok (HasKey primary) r
        → Ok
            (Encrypts primary)
            (elim r [ ok aeads ↦ ok (record { primary = primary; keys = aeads }) | err e ↦ err e ])
    by_aeads (ok aeads) h = (refl, h)
    by_aeads (err e) h = tt

-- The keys of a process: where ParseKeysEnv accepts a setting, every version is from 1 to 255, so that
-- it fits into a byte and is not the reserved 0; and where NewEncryptor accepts keys, the encryptor
-- has the primary version that was asked for, and a key of 32 bytes under it, so that encryption
-- never meets a missing cipher.
pub new_encryptor-HasKey :
    (c : Cipher) (s : Text) (keys : List (ℕ × Text)) (primary : ℕ) (e : Encryptor)
    → parse_keys_env s ≡ ok keys
    → new_encryptor c primary keys ≡ ok e
    → All InRange keys × (e.primary ≡ primary) × HasKey primary e.keys
unfolding parse_keys_env new_encryptor
new_encryptor-HasKey c s keys primary e p n =
    let parts = Crypto.split 44 s in
    let (same, key) =
      Ok-holds (Encrypts primary) (new_encryptor c primary keys) e
        (new_encryptor-Encrypts c primary keys) n in
    (
      Ok-holds (All InRange) (parse_keys_env s) keys
          (not_empty-InRange (parse_parts parts []) (parse_parts-InRange parts [] tt)) p,
      same,
      key,
    )
