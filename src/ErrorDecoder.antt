-- ===== src/ErrorDecoder.antt =====
-- error_decoder.go: custom errors of contracts, found by their selector. `abi.Error` and its `Unpack`
-- are of go-ethereum; `encoding/hex` is written out.
pub mod Hex
pub mod RoundTrip
mod Tests
use walletarmy.Common.{
  ℕ, zero, suc, Bool, true, false, ◌&&◌, Option, none, some, List, [], ◌∷◌, ◌<◌, ltb, ◌==◌, length,
  if◌then◌else◌,
}
use walletarmy.Common.Text.{Text, codes, is_prefix}
use walletarmy.ErrorDecoder.Hex.{hex_encode, hex_decode}

-- go-ethereum's description of an error of a contract.
pub record Abi : Type 1 where
  pub AbiError : Type 0
  pub Params : Type 0
  pub id_of : AbiError → Text
  -- none: it fails
  pub unpack : AbiError → Text → Option Params

-- What `errors.As` finds in an error, and the type of its data.
pub data ErrorData : Type 0 where
  not_a_data_error no_data not_a_string : ErrorData
  a_string : Text → ErrorData

-- The three results of `Decode`, by its returns; each error wraps the original one.
pub data Decoded (abi : Abi) : Type 0 where
  not_custom no_error_data not_string bad_hex too_short : Decoded abi
  unknown_selector : Text → Decoded abi
  not_unpacked : abi.AbiError → Decoded abi
  decoded : abi.AbiError → abi.Params → Decoded abi

abbrev pub text_eq : Text → Text → Bool
text_eq [] [] = true
text_eq [] (d ∷ ds) = false
text_eq (c ∷ cs) [] = false
text_eq (c ∷ cs) (d ∷ ds) = c == d && text_eq cs ds

-- `b[:n]`, of at least as many bytes
abbrev pub take : ℕ → Text → Text
take zero bs = []
take (suc n) [] = []
take (suc n) (b ∷ bs) = b ∷ take n bs

abbrev pub drop : ℕ → Text → Text
drop zero bs = bs
drop (suc n) [] = []
drop (suc n) (b ∷ bs) = drop n bs

abbrev pub drop_if : Bool → ℕ → Text → Text
drop_if true n text = drop n text
drop_if false n text = text

abbrev pub trim_prefix : Text → Text → Text
trim_prefix text prefix = drop_if (is_prefix prefix text) (length prefix) text

module _ (abi : Abi) where
  -- `errorBySelector`
  abbrev pub ErrorDecoder : Type 0
  ErrorDecoder = Text → Option abi.AbiError

  abbrev pub selector : Text → Text
  selector bytes = hex_encode (take 4 bytes)

  abbrev pub register : abi.AbiError → ErrorDecoder → ErrorDecoder
  register e d key = if text_eq key (selector (abi.id_of e)) then some e else d key

  -- In the order in which Go ranges over the errors of an ABI.
  abbrev pub register_errors : List abi.AbiError → ErrorDecoder → ErrorDecoder
  register_errors [] d = d
  register_errors (e ∷ es) d = register_errors es (register e d)

  abbrev pub register_abis : List (List abi.AbiError) → ErrorDecoder → ErrorDecoder
  register_abis [] d = d
  register_abis (es ∷ abis) d = register_abis abis (register_errors es d)

  -- `none`: no ABI was given.
  unfoldable pub new_error_decoder : List (List abi.AbiError) → Option ErrorDecoder
  new_error_decoder [] = none
  new_error_decoder (es ∷ abis) = some (register_abis (es ∷ abis) (λ key. none))

  -- `createErrorDecoder`: the error of `NewErrorDecoder` is logged.
  unfoldable pub create_error_decoder : List (List abi.AbiError) → Option ErrorDecoder
  create_error_decoder [] = none
  create_error_decoder (es ∷ abis) = new_error_decoder (es ∷ abis)

  abbrev pub unpacked : abi.AbiError → Option abi.Params → Decoded abi
  unpacked e none = not_unpacked e
  unpacked e (some p) = decoded e p

  abbrev pub by_selector : Text → Option abi.AbiError → Decoded abi
  by_selector bytes none = unknown_selector (selector bytes)
  by_selector bytes (some e) = unpacked e (abi.unpack e bytes)

  abbrev pub by_bytes : ErrorDecoder → Option Text → Decoded abi
  by_bytes d none = bad_hex
  by_bytes d (some bytes) =
      if ltb (length bytes) 4 then too_short else by_selector bytes (d (selector bytes))

  unfoldable pub decode : ErrorDecoder → ErrorData → Decoded abi
  decode d not_a_data_error = not_custom
  decode d no_data = no_error_data
  decode d not_a_string = not_string
  decode d (a_string text) = by_bytes d (hex_decode (trim_prefix text (codes "0x")))
