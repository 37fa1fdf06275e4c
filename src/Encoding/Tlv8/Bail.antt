-- ===== src/Encoding/Tlv8/Bail.antt =====
-- `bail` and the error codes of packages/encoding/src/tlv8.ts.
use apple_protocols.Prelude.{
  ℕ, ◌<◌, List, [], ◌∷◌, Option, none, some, Bytes, le_value, length, leb, ◌==◌, ◌&&◌,
  if◌then◌else◌, ◌≡◌, ◌↔◌, ◌⊎◌, refl, arith,
}
use apple_protocols.Prelude.JsMap
use apple_protocols.Prelude.JsMap.{JsMap}

-- `ErrorCode`, and the `Value` types that `bail` looks for.
pub data ErrorCode : Type 0 where
  unknown authentication back_off max_peers max_tries unavailable busy : ErrorCode

unfoldable pub code_of : ErrorCode → ℕ
code_of unknown = 0x01
code_of authentication = 0x02
code_of back_off = 0x03
code_of max_peers = 0x04
code_of max_tries = 0x05
code_of unavailable = 0x06
code_of busy = 0x07

abbrev pub value_error : ℕ
value_error = 0x07

abbrev pub value_back_off : ℕ
value_back_off = 0x08

-- `Object.entries(ErrorCode)`, in the order of the source.
abbrev error_codes : List ErrorCode
error_codes = unknown ∷ authentication ∷ back_off ∷ max_peers ∷ max_tries ∷ unavailable ∷ busy ∷ []

-- What is thrown: a TLV8PairingError with its message's parameter and its code, or the RangeError of
-- a buffer read.
pub data Thrown : Type 0 where
  device_busy : ℕ → Thrown
  unknown_error : ℕ → Thrown
  known_error : ErrorCode → Thrown
  invalid_response : Thrown
  range_error : Thrown

-- The `code` of the error, where it is one of TLV8PairingError with a code.
unfoldable pub thrown_code : Thrown → Option ℕ
unfolding code_of
thrown_code (device_busy time) = some (code_of back_off)
thrown_code (unknown_error code) = some code
thrown_code (known_error e) = some (code_of e)
thrown_code invalid_response = none
thrown_code range_error = none

unfoldable pub find_code : ℕ → List ErrorCode → Option ErrorCode
unfolding code_of
find_code c [] = none
find_code c (e ∷ es) = if code_of e == c then some e else find_code c es

-- `readUintLE(0, length)` takes 1 to 6 bytes, and `readUint8` one.
unfoldable pub bail_back_off : Bytes → Thrown
bail_back_off buf =
    if leb 1 (length buf) && leb (length buf) 6 then device_busy (le_value buf) else range_error

unfoldable pub bail_error : Bytes → Thrown
unfolding find_code
bail_error [] = range_error
bail_error (code ∷ _) = elim (find_code code error_codes) [
  | none ↦ unknown_error code
  | some e ↦ known_error e
]

unfoldable pub bail_without_back_off : Option Bytes → Thrown
unfolding bail_error
bail_without_back_off (some buf) = bail_error buf
bail_without_back_off none = invalid_response

unfoldable pub bail_with : Option Bytes → Option Bytes → Thrown
unfolding bail_back_off bail_without_back_off
bail_with (some buf) error = bail_back_off buf
bail_with none error = bail_without_back_off error

unfoldable pub bail : JsMap Bytes → Thrown
unfolding bail_with
bail m = bail_with (JsMap.get m value_back_off) (JsMap.get m value_error)

find_code-code : (e : ErrorCode) → find_code (code_of e) error_codes ≡ some e
unfolding find_code
find_code-code unknown = refl
find_code-code authentication = refl
find_code-code back_off = refl
find_code-code max_peers = refl
find_code-code max_tries = refl
find_code-code unavailable = refl
find_code-code busy = refl

bail_error_code : (code : ℕ) (rest : Bytes) → thrown_code (bail_error (code ∷ rest)) ≡ some code
unfolding thrown_code bail_error
bail_error_code code rest = ground arith

find_code-none : (code : ℕ) → (find_code code error_codes ≡ none) ↔ ((code ≡ 0) ⊎ (7 < code))
unfolding find_code
find_code-none code = (λ e. ground arith, λ h. ground arith)

bail_error-unknown :
    (code : ℕ) (rest : Bytes)
    → (bail_error (code ∷ rest) ≡ unknown_error code) ↔ ((code ≡ 0) ⊎ (7 < code))
unfolding bail_error
bail_error-unknown code rest = (λ e. ground arith, λ h. ground arith)

-- A response with no back-off time and a non-empty error value is reported with the first byte of
-- that value as its code, and as an unknown error exactly when that is none of the codes 1 to 7.
pub bail_code :
    (m : JsMap Bytes) (code : ℕ) (rest : Bytes)
    → JsMap.get m value_back_off ≡ none
    → JsMap.get m value_error ≡ some (code ∷ rest)
    → (thrown_code (bail m) ≡ some code)
      × ((bail m ≡ unknown_error code) ↔ ((code ≡ 0) ⊎ (7 < code)))
unfolding bail
bail_code m code rest e k = rw (e, k) (bail_error_code code rest, bail_error-unknown code rest)
