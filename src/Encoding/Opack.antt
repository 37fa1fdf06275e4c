-- ===== src/Encoding/Opack.antt =====
-- packages/encoding/src/opack.ts: the values and the encoder. A string is given by its UTF-8 bytes,
-- and a double by the eight bytes that it is stored in.
pub mod Tag
pub mod Utf8
pub mod Unpack
pub mod Leaves
pub mod Flat
pub mod Sharing
pub mod RoundTrip
pub mod Assigned
pub mod Objects
pub mod Endless
pub mod Negative
use apple_protocols.Prelude.{
  ℕ, zero, suc, ◌+◌, ◌-◌, ◌*◌, ◌/◌, ◌%◌, ◌^◌, List, [], ◌∷◌, ◌++◌, Option, none, some, Bytes, ◌>>=◌,
  le_bytes, Bool, true, false, ◌&&◌, ltb, leb, ◌==◌, if◌then◌else◌, length, ℤ, pos, negsuc,
}

-- `float` is a `Float` or a number that is not whole, `number` a whole number.
mutual
  pub data Value : Type 0 where
    null_value : Value
    undefined_value : Value
    boolean : Bool → Value
    float : Bytes → Value
    number : ℤ → Value
    integer : ℤ → Value
    sized_integer : ℤ → ℕ → Value
    text : Bytes → Value
    byte_array : Bytes → Value
    array : Values → Value
    object : Entries → Value

  pub data Values : Type 0 where
    no_values : Values
    value_then : Value → Values → Values

  -- The entries of an object, in the order of `Object.keys`.
  pub data Entries : Type 0 where
    no_entries : Entries
    entry_then : Bytes → Value → Entries → Entries

abbrev pub count_values : Values → ℕ
count_values no_values = 0
count_values (value_then v vs) = suc (count_values vs)

abbrev pub count_entries : Entries → ℕ
count_entries no_entries = 0
count_entries (entry_then k v es) = suc (count_entries es)

-- The low n bytes of an integer in two's complement, least significant first.
abbrev pub low_bytes : ℕ → ℤ → Bytes
low_bytes n (pos v) = le_bytes n v
low_bytes n (negsuc v) = le_bytes n (256 ^ n - 1 - v % 256 ^ n)

-- A number that is not negative, inline up to 39 or in 1, 2, 4 or 8 bytes.
unfoldable pub pack_unsigned : ℕ → Bytes
pack_unsigned v =
    if leb v 0x27
    then (0x08 + v) ∷ []
    else if leb v 0xFF
    then 0x30 ∷ le_bytes 1 v
    else if leb v 0xFFFF
    then 0x31 ∷ le_bytes 2 v
    else if leb v 0xFFFFFFFF
    then 0x32 ∷ le_bytes 4 v
    else 0x33 ∷ le_bytes 8 v

unfoldable pub pack_number : ℤ → Bytes
unfolding pack_unsigned
pack_number (pos v) = pack_unsigned v
pack_number (negsuc v) = 0x33 ∷ low_bytes 8 (negsuc v)

-- A negative `Integer` is taken for one that is small enough to stand inline.
unfoldable pub pack_integer : ℤ → Bytes
unfolding pack_unsigned
pack_integer (pos v) = pack_unsigned v
pack_integer (negsuc v) = ((0x08 + 256 - suc (v % 256)) % 256) ∷ []

-- `31 - Math.clz32(size)`: the logarithm of a size below 2³², and -1 for 0.
abbrev pub log_2 : ℕ → ℕ → ℕ
log_2 zero v = 0
log_2 (suc fuel) v = let rest = log_2 fuel (v / 2) in if leb v 1 then 0 else suc rest

-- `none` is the RangeError of writing eight bytes into fewer.
unfoldable pub pack_sized : ℤ → ℕ → Option Bytes
pack_sized z zero = none
pack_sized z (suc n) =
    let size = suc n in
    let tag = (0x30 + log_2 32 size) % 256 in
    if size == 1
    then some (tag ∷ low_bytes 1 z)
    else if size == 2
    then some (tag ∷ low_bytes 2 z)
    else if size == 4
    then some (tag ∷ low_bytes 4 z)
    else if ltb size 8
    then none
    else some (tag ∷ (low_bytes 8 z ++ le_bytes (size - 8) 0))

unfoldable pub pack_text : Bytes → Bytes
pack_text b =
    let size = length b in
    if leb size 0x20
    then (0x40 + size) ∷ b
    else if leb size 0xFF
    then 0x61 ∷ (le_bytes 1 size ++ b)
    else if leb size 0xFFFF
    then 0x62 ∷ (le_bytes 2 size ++ b)
    else if leb size 0xFFFFFF
    then 0x63 ∷ (le_bytes 3 size ++ b)
    else 0x64 ∷ (le_bytes 4 size ++ b)

unfoldable pub pack_bytes : Bytes → Bytes
pack_bytes b =
    let size = length b in
    if leb size 0x20
    then (0x70 + size) ∷ b
    else if leb size 0xFF
    then 0x91 ∷ (le_bytes 1 size ++ b)
    else if leb size 0xFFFF
    then 0x92 ∷ (le_bytes 2 size ++ b)
    else 0x93 ∷ (le_bytes 4 size ++ b)

-- An array's or an object's parts behind its tag.
unfoldable pub frame_array : ℕ → Bytes → Bytes
frame_array n body = if ltb n 0x0F then (0xD0 + n) ∷ body else 0xDF ∷ (body ++ (0x03 ∷ []))

unfoldable pub frame_object : ℕ → Bytes → Bytes
frame_object n body =
    let tag = if leb n 0x0F then 0xE0 + n else 0xEF in
    if leb 0x0F n then tag ∷ (body ++ (0x81 ∷ [])) else tag ∷ body

abbrev pub equal_bytes : Bytes → Bytes → Bool
equal_bytes [] [] = true
equal_bytes (a ∷ as_) (b ∷ bs) = (a == b) && equal_bytes as_ bs
equal_bytes _ _ = false

-- `objectList.findIndex`.
unfoldable pub find_index : Bytes → List Bytes → Option ℕ
find_index packed [] = none
find_index packed (o ∷ objects) =
    let rest = find_index packed objects in
    if equal_bytes o packed then some 0 else (rest >>= λ i. some (suc i))

unfoldable pub pack_reference : ℕ → Bytes
pack_reference idx =
    if ltb idx 0x21
    then (0xA0 + idx) ∷ []
    else if leb idx 0xFF
    then 0xC1 ∷ le_bytes 1 idx
    else if leb idx 0xFFFF
    then 0xC2 ∷ le_bytes 2 idx
    else if leb idx 0xFFFFFFFF
    then 0xC3 ∷ le_bytes 4 idx
    else 0xC4 ∷ le_bytes 8 idx

-- A reference in place of what was packed before; otherwise what is longer than a byte is kept.
unfoldable pub share_at : Option ℕ → Bytes → List Bytes → Bytes × List Bytes
unfolding pack_reference
share_at (some idx) packed objects = (pack_reference idx, objects)
share_at none packed objects =
    if ltb 1 (length packed) then (packed, objects ++ (packed ∷ [])) else (packed, objects)

unfoldable pub share : Bytes → List Bytes → Bytes × List Bytes
unfolding share_at find_index
share packed objects = share_at (find_index packed objects) packed objects

-- The encoder's result and the list of the objects packed so far.
unfoldable mutual
  unfolding pack_number pack_integer pack_sized pack_text pack_bytes frame_array frame_object share

  pub pack : Value → List Bytes → Option (Bytes × List Bytes)
  pack null_value objects = some (share (0x04 ∷ []) objects)
  pack undefined_value objects = some (share (0x04 ∷ []) objects)
  pack (boolean true) objects = some (share (0x01 ∷ []) objects)
  pack (boolean false) objects = some (share (0x02 ∷ []) objects)
  pack (float bits) objects = some (share (0x36 ∷ bits) objects)
  pack (number z) objects = some (share (pack_number z) objects)
  pack (integer z) objects = some (share (pack_integer z) objects)
  pack (sized_integer z size) objects = pack_sized z size >>= λ packed. some (share packed objects)
  pack (text b) objects = some (share (pack_text b) objects)
  pack (byte_array b) objects = some (share (pack_bytes b) objects)
  pack (array vs) objects = pack_values vs objects >>= λ (body, objects').
      some (share (frame_array (count_values vs) body) objects')
  pack (object es) objects = pack_entries es objects >>= λ (body, objects').
      some (share (frame_object (count_entries es) body) objects')

  pub pack_values : Values → List Bytes → Option (Bytes × List Bytes)
  pack_values no_values objects = some ([], objects)
  pack_values (value_then v vs) objects = pack v objects >>= λ (part, objects').
      pack_values vs objects' >>= λ (parts, objects''). some (part ++ parts, objects'')

  pub pack_entries : Entries → List Bytes → Option (Bytes × List Bytes)
  pack_entries no_entries objects = some ([], objects)
  pack_entries (entry_then k v es) objects =
      let (key_part, objects') = share (pack_text k) objects in
      pack v objects' >>= λ (value_part, objects'').
      pack_entries es objects'' >>= λ (parts, objects''').
      some (key_part ++ (value_part ++ parts), objects''')

unfoldable pub encode : Value → Option Bytes
unfolding pack
encode v = pack v [] >>= λ (packed, objects). some packed
