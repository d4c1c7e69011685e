-- ===== src/ErrorDecoder/Tests.antt =====
-- Runs of the error decoder: error_decoder.go.
use walletarmy.Common.{◌≡◌, refl, Bool, true, false, Option, none, some, [], ◌∷◌, ◌++◌, arith}
use walletarmy.Common.Text.{Text, codes}
use walletarmy.ErrorDecoder.Hex.{hex_encode, hex_decode}
use walletarmy.ErrorDecoder.{
  Abi, a_string, bad_hex, too_short, unknown_selector, not_unpacked, decoded, drop, ErrorDecoder,
  register, new_error_decoder, create_error_decoder, decode,
}
use walletarmy.ErrorDecoder.RoundTrip.{raised, decode-raised}

abbrev identifier : Bool → Text
identifier true = 18 ∷ 52 ∷ 86 ∷ 120 ∷ 255 ∷ []
identifier false = 171 ∷ 205 ∷ 239 ∷ 1 ∷ 7 ∷ []

abbrev arguments_of : Bool → Text → Option Text
arguments_of true bytes = some (drop 4 bytes)
arguments_of false bytes = none

abbrev two_errors : Abi
two_errors = record { AbiError = Bool; Params = Text; id_of = identifier; unpack = arguments_of }

abbrev first_only : ErrorDecoder two_errors
first_only = register two_errors true (λ key. none)

abbrev both : ErrorDecoder two_errors
both = register two_errors false first_only

decode_known :
    decode two_errors both (a_string (codes "0x12345678" ++ codes "2A")) ≡ decoded true (42 ∷ [])
unfolding decode hex_encode hex_decode
decode_known = refl

decode_not_unpacked : decode two_errors both (a_string (codes "abcdef01")) ≡ not_unpacked false
unfolding decode hex_encode hex_decode
decode_not_unpacked = refl

decode_unknown :
    decode two_errors first_only (a_string (codes "0xabcdef01"))
    ≡ unknown_selector (codes "abcdef01")
unfolding decode hex_encode hex_decode
decode_unknown = refl

decode_short : decode two_errors both (a_string (codes "0x123456")) ≡ too_short
unfolding decode hex_encode hex_decode
decode_short = refl

decode_odd : decode two_errors both (a_string (codes "0x123")) ≡ bad_hex
unfolding decode hex_encode hex_decode
decode_odd = refl

no_decoder : create_error_decoder two_errors [] ≡ none
unfolding create_error_decoder
no_decoder = refl

no_abis : new_error_decoder two_errors [] ≡ none
unfolding new_error_decoder
no_abis = refl

decode-raised_example :
    decode two_errors
      (register two_errors true first_only)
      (a_string (raised two_errors true (42 ∷ [])))
    ≡ decoded true (42 ∷ [])
decode-raised_example =
    decode-raised two_errors true (42 ∷ []) first_only (omega arith)
      (omega arith, (omega arith, (omega arith, (omega arith, (omega arith, tt)))))
