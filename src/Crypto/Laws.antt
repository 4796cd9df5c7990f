-- ===== src/Crypto/Laws.antt =====
-- Round trips of custom_components/nimly_manager/nimly_ble/crypto.py, for a cipher that inverts.
use nimly_manager.Base.{
  ℕ, suc, ◌-◌, ◌%◌, ◌≡◌, ◌<◌, ◌≤◌, ◌+◌, refl, ap, ◌∙◌, take, take-append, take_all, [], ◌∷◌, arith,
  Bytes, length, replicate, length-append, length-replicate,
}
use nimly_manager.Base.Result.{ok}
use nimly_manager.Crypto.{
  Cbc, zero_pad, encrypt, decrypt, bit_invert, owner_auth_answer, make_owner_challenge,
}

-- What a block cipher in CBC mode does with whole blocks: it keeps the length, and the second
-- direction undoes the first.
pub record IsCbc (c : Cbc) : Type 0 where
  pub length_kept :
      (key iv plain : Bytes) → length plain % 16 ≡ 0 → length (c.forth key iv plain) ≡ length plain
  pub undone :
      (key iv plain : Bytes) → length plain % 16 ≡ 0 → c.back key iv (c.forth key iv plain) ≡ plain

pub zero_pad_whole : (plain : Bytes) → length (zero_pad plain) % 16 ≡ 0
unfolding zero_pad
zero_pad_whole plain = ground (
  arith,
  length-append plain (replicate (16 - length plain % 16) 0),
  length-replicate {A = ℕ} (16 - length plain % 16) 0,
)

pub length-zero_pad : (plain : Bytes) → length (zero_pad plain) ≤ length plain + 15
unfolding zero_pad
length-zero_pad plain = ground (
  arith,
  length-append plain (replicate (16 - length plain % 16) 0),
  length-replicate {A = ℕ} (16 - length plain % 16) 0,
)

decrypt_whole :
    (c : Cbc) (key iv cipher : Bytes)
    → length cipher % 16 ≡ 0
    → 0 < length cipher
    → decrypt c key iv cipher ≡ ok (c.back key iv cipher)
unfolding decrypt
decrypt_whole c key iv [] h k = absurd (omega arith)
decrypt_whole c key iv (x ∷ xs) h k = rw h refl

zero_pad_long : (b : ℕ) (bs : Bytes) → 0 < length (zero_pad (b ∷ bs))
unfolding zero_pad
zero_pad_long b bs =
    ground (arith, length-append (b ∷ bs) (replicate (16 - length (b ∷ bs) % 16) 0))

-- With a cipher that inverts, decrypting what encrypt gives returns the message with the zeros that
-- fill its last block; the message is the part that its length says.
pub decrypt-encrypt :
    (c : Cbc) (key iv plain : Bytes)
    → IsCbc c
    → (decrypt c key iv (encrypt c key iv plain) ≡ ok (zero_pad plain))
      × (take (length plain) (zero_pad plain) ≡ plain)
unfolding encrypt decrypt zero_pad
decrypt-encrypt c key iv [] laws = (refl, refl)
decrypt-encrypt c key iv (b ∷ bs) laws =
    let padded = zero_pad (b ∷ bs) in
    let whole = zero_pad_whole (b ∷ bs) in
    let kept = laws.length_kept key iv padded whole in
    let undone = laws.undone key iv padded whole in
    (
      decrypt_whole c key iv (c.forth key iv padded) (rw kept whole) (rw kept (zero_pad_long b bs))
          ∙ ap ok undone,
      ground (
        arith,
        take-append (b ∷ bs) (replicate (16 - length (b ∷ bs) % 16) 0),
        take_all (length (b ∷ bs)) (b ∷ bs) (omega arith),
      ),
    )

length-bit_invert : (bs : Bytes) → length (bit_invert bs) ≡ length bs
unfolding bit_invert
length-bit_invert [] = refl
length-bit_invert (b ∷ bs) = ap suc (length-bit_invert bs)

zero_pad_full : (bs : Bytes) → length bs ≡ 16 → zero_pad bs ≡ bs
unfolding zero_pad
zero_pad_full bs h = ground arith

encrypt_full :
    (c : Cbc) (key iv bs : Bytes) → length bs ≡ 16 → encrypt c key iv bs ≡ c.forth key iv bs
unfolding encrypt
encrypt_full c key iv [] h = absurd (omega arith)
encrypt_full c key iv (b ∷ bs) h = ap (c.forth key iv) (zero_pad_full (b ∷ bs) h)

decrypt-encrypt_full :
    (c : Cbc) (key iv bs : Bytes)
    → IsCbc c
    → length bs ≡ 16
    → decrypt c key iv (encrypt c key iv bs) ≡ ok bs
decrypt-encrypt_full c key iv bs laws h =
    (decrypt-encrypt c key iv bs laws).0 ∙ ap ok (zero_pad_full bs h)

length-encrypt_full :
    (c : Cbc) (key iv bs : Bytes) → IsCbc c → length bs ≡ 16 → length (encrypt c key iv bs) ≡ 16
length-encrypt_full c key iv bs laws h =
    ap length (encrypt_full c key iv bs h) ∙ (laws.length_kept key iv bs (rw h refl) ∙ h)

-- With a cipher that inverts, a challenge made from a nonce of 16 bytes is answered, and the lock
-- that decrypts the answer with the same owner key and IV reads the nonce with every bit inverted.
pub owner_auth_answer-make_owner_challenge :
    (c : Cbc) (owner_key link_iv nonce : Bytes)
    → IsCbc c
    → length nonce ≡ 16
    → (challenge answer : Bytes) × (make_owner_challenge c owner_key link_iv nonce ≡ ok challenge)
      × (owner_auth_answer c owner_key link_iv challenge ≡ ok answer)
      × (decrypt c owner_key link_iv answer ≡ ok (bit_invert nonce))
unfolding make_owner_challenge owner_auth_answer
owner_auth_answer-make_owner_challenge c owner_key link_iv nonce laws h = (
  encrypt c owner_key link_iv nonce,
  encrypt c owner_key link_iv (bit_invert nonce),
  rw h refl,
  rw
      (
        length-encrypt_full c owner_key link_iv nonce laws h,
        decrypt-encrypt_full c owner_key link_iv nonce laws h,
      )
      refl,
  decrypt-encrypt_full c owner_key link_iv (bit_invert nonce) laws (length-bit_invert nonce ∙ h),
)
