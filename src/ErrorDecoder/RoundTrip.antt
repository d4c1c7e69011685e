-- ===== src/ErrorDecoder/RoundTrip.antt =====
-- An error that a contract raises is found again by its selector: error_decoder.go.
use walletarmy.Common.{
  ℕ, zero, suc, ◌≤◌, ◌≡◌, refl, ap, ◌∙◌, true, false, some, [], ◌∷◌, ◌++◌, length, ltb, arith,
  if◌then◌else◌,
}
use walletarmy.Common.Text.{Text, codes}
use walletarmy.ErrorDecoder.Hex.{hex_encode, IsBytes, hex_decode-hex_encode}
use walletarmy.ErrorDecoder.{
  Abi, a_string, too_short, text_eq, take, selector, ErrorDecoder, register, unpacked, by_selector,
  by_bytes, decode,
}

text_eq_refl : (t : Text) → text_eq t t ≡ true
text_eq_refl [] = refl
text_eq_refl (c ∷ cs) = ground (arith, text_eq_refl cs)

take-append : (n : ℕ) (xs ys : Text) → n ≤ length xs → take n (xs ++ ys) ≡ take n xs
take-append zero xs ys h = refl
take-append (suc n) [] ys h = absurd (omega arith)
take-append (suc n) (x ∷ xs) ys h = ap (λ t. x ∷ t) (take-append n xs ys (omega arith))

length-take : (n : ℕ) (xs : Text) → n ≤ length xs → length (take n xs) ≡ n
length-take zero xs h = refl
length-take (suc n) [] h = absurd (omega arith)
length-take (suc n) (x ∷ xs) h = ap (λ k. suc k) (length-take n xs (omega arith))

take-take : (n : ℕ) (xs : Text) → take n (take n xs) ≡ take n xs
take-take zero xs = refl
take-take (suc n) [] = refl
take-take (suc n) (x ∷ xs) = ap (λ t. x ∷ t) (take-take n xs)

length-le-append : (xs ys : Text) → length xs ≤ length (xs ++ ys)
length-le-append [] ys = omega arith
length-le-append (x ∷ xs) ys = omega (arith, length-le-append xs ys)

not_less : (n : ℕ) → 4 ≤ n → ltb n 4 ≡ false
not_less n h = ground arith

module _ (abi : Abi) where
  -- The data of the error `e`: the selector and the arguments, in hexadecimal with a prefix.
  abbrev pub raised : abi.AbiError → Text → Text
  raised e arguments = codes "0x" ++ hex_encode (take 4 (abi.id_of e) ++ arguments)

  register-same :
      (e : abi.AbiError) (d : ErrorDecoder abi) (key : Text)
      → key ≡ selector abi (abi.id_of e)
      → register abi e d key ≡ some e
  register-same e d key same =
      ap (λ b. if b then some e else d key)
        (ap (λ t. text_eq t (selector abi (abi.id_of e))) same
          ∙ text_eq_refl (selector abi (abi.id_of e)))

  by_bytes-long :
      (d : ErrorDecoder abi) (e : abi.AbiError) (bytes : Text)
      → 4 ≤ length bytes
      → d (selector abi bytes) ≡ some e
      → by_bytes abi d (some bytes) ≡ unpacked abi e (abi.unpack e bytes)
  by_bytes-long d e bytes long known =
      ap (λ b. if b then too_short else by_selector abi bytes (d (selector abi bytes)))
        (not_less (length bytes) long)
      ∙ ap (λ found. by_selector abi bytes found) known

  selector-append :
      (id arguments : Text)
      → 4 ≤ length id
      → selector abi (take 4 id ++ arguments) ≡ selector abi id
  selector-append id arguments h =
      ap (λ t. hex_encode t)
        (take-append 4 (take 4 id) arguments (omega (arith, length-take 4 id h)) ∙ take-take 4 id)

  by_bytes-found :
      (e : abi.AbiError) (arguments : Text) (d : ErrorDecoder abi)
      → 4 ≤ length (abi.id_of e)
      → by_bytes abi (register abi e d) (some (take 4 (abi.id_of e) ++ arguments))
        ≡ unpacked abi e (abi.unpack e (take 4 (abi.id_of e) ++ arguments))
  by_bytes-found e arguments d h =
      by_bytes-long (register abi e d) e (take 4 (abi.id_of e) ++ arguments)
        (omega
          (arith, length-take 4 (abi.id_of e) h, length-le-append (take 4 (abi.id_of e)) arguments))
        (register-same e d (selector abi (take 4 (abi.id_of e) ++ arguments))
          (selector-append (abi.id_of e) arguments h))

  -- Whatever decoder `e` is registered in, the data that a contract raises `e` with, its selector and its
  -- arguments in hexadecimal after 0x, is decoded as `e`, with what its `Unpack` makes of the bytes. The
  -- identifier of `e` has at least 4 bytes, and all of them are below 256.
  pub decode-raised :
      (e : abi.AbiError) (arguments : Text) (d : ErrorDecoder abi)
      → 4 ≤ length (abi.id_of e)
      → IsBytes (take 4 (abi.id_of e) ++ arguments)
      → decode abi (register abi e d) (a_string (raised e arguments))
        ≡ unpacked abi e (abi.unpack e (take 4 (abi.id_of e) ++ arguments))
  unfolding decode
  decode-raised e arguments d h bytes =
      ap (λ decoded. by_bytes abi (register abi e d) decoded)
        (hex_decode-hex_encode (take 4 (abi.id_of e) ++ arguments) bytes)
      ∙ by_bytes-found e arguments d h
