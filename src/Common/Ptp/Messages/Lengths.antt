-- ===== src/Common/Ptp/Messages/Lengths.antt =====
-- Which messages `decodeMessage` of packages/common/src/timing/ptp/messages.ts gives `null` for.
use apple_protocols.Prelude.{
  ℕ, ◌+◌, ◌%◌, [], ◌∷◌, Option, none, some, Bool, false, ◌||◌, Bytes, length, leb, ◌==◌,
  if◌then◌else◌,
}
use apple_protocols.Common.Ptp.Messages.{PtpMessageType}
use apple_protocols.Common.Ptp.Messages.Decode.{body_length}

-- How long a message must be, from the code in the low half of its first byte: the 34 bytes of the
-- header with a timestamp of 10, and another 10 in a delay response; or with 30 in an announcement.
abbrev pub needed : ℕ → Option ℕ
needed code =
    if code == 9
    then some 54
    else if code == 11
    then some 64
    else if leb code 1 || code == 8 || code == 12
    then some 44
    else none

abbrev pub has_needed : Option ℕ → ℕ → Bool
has_needed none n = false
has_needed (some least) n = leb least n

abbrev pub is_complete : Bytes → Bool
is_complete [] = false
is_complete (first ∷ rest) = has_needed (needed (first % 16)) (length (first ∷ rest))

abbrev length_of : Option PtpMessageType → Option ℕ
length_of none = none
length_of (some type) = some (34 + body_length type)
