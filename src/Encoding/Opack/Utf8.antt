-- ===== src/Encoding/Opack/Utf8.antt =====
-- `new TextDecoder().decode`, which packages/encoding/src/opack.ts reads strings with: the UTF-8 decoder
-- of the language's platform. Its result is given by its UTF-8 bytes again.
use apple_protocols.Prelude.{ℕ, ◌-◌, [], ◌∷◌, ◌++◌, Bytes, ◌&&◌, leb, ltb, ◌==◌, if◌then◌else◌, ◌≡◌}

-- The bytes of a character that has begun, how many it still needs, and the bounds of the next.
pub record Pending : Type 0 where
  pub seen : Bytes
  pub needed : ℕ
  pub lower : ℕ
  pub upper : ℕ

abbrev idle : Pending
idle = record { seen = []; needed = 0; lower = 0x80; upper = 0xBF }

-- U+FFFD stands for what is no character.
abbrev replacement : Bytes
replacement = 0xEF ∷ 0xBF ∷ 0xBD ∷ []

abbrev begin_at : ℕ → ℕ → ℕ → ℕ → Bytes × Pending
begin_at b needed lower upper =
    ([], record { seen = b ∷ []; needed = needed; lower = lower; upper = upper })

abbrev first_byte : ℕ → Bytes × Pending
first_byte b =
    if leb b 0x7F
    then (b ∷ [], idle)
    else if ltb b 0xC2
    then (replacement, idle)
    else if leb b 0xDF
    then begin_at b 1 0x80 0xBF
    else if leb b 0xEF
    then begin_at b 2 (if b == 0xE0 then 0xA0 else 0x80) (if b == 0xED then 0x9F else 0xBF)
    else if leb b 0xF4
    then begin_at b 3 (if b == 0xF0 then 0x90 else 0x80) (if b == 0xF4 then 0x8F else 0xBF)
    else (replacement, idle)

abbrev continued : Pending → ℕ → Bytes × Pending
continued p b = if p.needed == 1 then (p.seen ++ (b ∷ []), idle) else (
  [],
  record { seen = p.seen ++ (b ∷ []); needed = p.needed - 1; lower = 0x80; upper = 0xBF },
)

-- A byte that does not go on with the character that has begun is read again as a first byte.
abbrev next_byte : Pending → ℕ → Bytes × Pending
next_byte p b =
    if p.needed == 0
    then first_byte b
    else if leb p.lower b && leb b p.upper
    then continued p b
    else (replacement ++ (first_byte b).0, (first_byte b).1)

unfoldable pub decode_from : Pending → Bytes → Bytes
decode_from p [] = if p.needed == 0 then [] else replacement
decode_from p (b ∷ bs) = (next_byte p b).0 ++ decode_from (next_byte p b).1 bs

-- A byte order mark in front is left out.
abbrev without_mark : Bytes → Bytes
without_mark (a ∷ b ∷ c ∷ rest) =
    if (a == 0xEF) && (b == 0xBB) && (c == 0xBF) then rest else a ∷ b ∷ c ∷ rest
without_mark b = b

unfoldable pub decode_text : Bytes → Bytes
unfolding decode_from
decode_text b = decode_from idle (without_mark b)

-- Text that the decoder does not change: well-formed UTF-8 with no byte order mark in front.
abbrev pub IsText : Bytes → Type 0
IsText b = decode_text b ≡ b
