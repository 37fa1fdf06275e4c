-- ===== src/Encoding/Opack/Assigned.antt =====
-- Assigning entries with distinct keys one by one gives these entries.
use apple_protocols.Prelude.{
  ℕ, ◌+◌, ◌-◌, ◌*◌, ◌^◌, ◌<◌, [], ◌∷◌, Bytes, Bool, true, false, not, ◌&&◌, leb, ltb, ◌==◌, length,
  ◌≡◌, refl, sym, ap, ◌∙◌,
}
use apple_protocols.Encoding.Opack.{Value, Entries, no_entries, entry_then, equal_bytes}
use apple_protocols.Encoding.Opack.Utf8.{IsText}
use apple_protocols.Encoding.Opack.Unpack.{set_entry}
use apple_protocols.Encoding.Opack.Flat.{FitsLeaf, form}

abbrev is_digit : ℕ → Bool
is_digit c = leb 0x30 c && leb c 0x39

abbrev all_digits : Bytes → Bool
all_digits [] = true
all_digits (c ∷ cs) = is_digit c && all_digits cs

abbrev decimal_from : ℕ → Bytes → ℕ
decimal_from n [] = n
decimal_from n (c ∷ cs) = decimal_from (n * 10 + (c - 0x30)) cs

-- An array index: a number below 2³² - 1 written with no zero in front.
abbrev pub is_array_index : Bytes → Bool
is_array_index [] = false
is_array_index (c ∷ []) = is_digit c
is_array_index (c ∷ d ∷ cs) =
    not (c == 0x30) && all_digits (c ∷ d ∷ cs) && ltb (decimal_from 0 (c ∷ d ∷ cs)) (2 ^ 32 - 1)

-- A key that an object takes like any other: array indices are put in front, in their order, and
-- `__proto__` sets the object's prototype.
abbrev pub IsPlainKey : Bytes → Type 0
IsPlainKey key =
    (is_array_index key ≡ false)
    × (equal_bytes key (b'_' ∷ b'_' ∷ b'p' ∷ b'r' ∷ b'o' ∷ b't' ∷ b'o' ∷ b'_' ∷ b'_' ∷ []) ≡ false)

-- A key that comes back.
abbrev pub FitsKey : Bytes → Type 0
FitsKey key = (length key < 2 ^ 31) × IsText key × IsPlainKey key

abbrev pub FitsEntries : Entries → Type 0
FitsEntries no_entries = Unit {0}
FitsEntries (entry_then k v es) = FitsKey k × (FitsLeaf v × FitsEntries es)

abbrev pub form_entries : Entries → Entries
form_entries no_entries = no_entries
form_entries (entry_then k v es) = entry_then k (form v) (form_entries es)

-- Entries assigned one by one.
abbrev pub set_all : Entries → Entries → Entries
set_all no_entries so_far = so_far
set_all (entry_then k v es) so_far = set_all es (set_entry k v so_far)

-- An object has each key once: no later key is the same.
abbrev pub IsFresh : Bytes → Entries → Type 0
IsFresh k no_entries = Unit {0}
IsFresh k (entry_then l w es) = (equal_bytes k l ≡ false) × IsFresh k es

abbrev pub HasDistinctKeys : Entries → Type 0
HasDistinctKeys no_entries = Unit {0}
HasDistinctKeys (entry_then k v es) = IsFresh k es × HasDistinctKeys es

abbrev pub join : Entries → Entries → Entries
join no_entries es = es
join (entry_then k v rest) es = entry_then k v (join rest es)

-- A key that none of these is equal to.
abbrev pub IsNew : Bytes → Entries → Type 0
IsNew k no_entries = Unit {0}
IsNew k (entry_then l w es) = (equal_bytes l k ≡ false) × IsNew k es

pub set_entry-new :
    (k : Bytes) (v : Value) (es : Entries)
    → IsNew k es
    → set_entry k v es ≡ join es (entry_then k v no_entries)
set_entry-new k v no_entries h = refl
set_entry-new k v (entry_then l w es) (other, h) = rw (other, set_entry-new k v es h)

-- The keys of the one are new to the other.
abbrev pub Apart : Entries → Entries → Type 0
Apart so_far no_entries = Unit {0}
Apart so_far (entry_then k v es) = IsNew k so_far × Apart so_far es

pub IsNew-join :
    (l k : Bytes) (v : Value) (so_far : Entries)
    → IsNew l so_far
    → equal_bytes k l ≡ false
    → IsNew l (join so_far (entry_then k v no_entries))
IsNew-join l k v no_entries h e = (e, tt)
IsNew-join l k v (entry_then m w so_far) (o, h) e = (o, IsNew-join l k v so_far h e)

pub Apart-join :
    (so_far es : Entries) (k : Bytes) (v : Value)
    → Apart so_far es
    → IsFresh k es
    → Apart (join so_far (entry_then k v no_entries)) es
Apart-join so_far no_entries k v a f = tt
Apart-join so_far (entry_then l w es) k v (n, a) (e, f) =
    (IsNew-join l k v so_far n e, Apart-join so_far es k v a f)

pub join-join :
    (a : Entries) (k : Bytes) (v : Value) (b : Entries)
    → join (join a (entry_then k v no_entries)) b ≡ join a (entry_then k v b)
join-join no_entries k v b = refl
join-join (entry_then l w a) k v b = ap (entry_then l w) (join-join a k v b)

pub join-none : (a : Entries) → join a no_entries ≡ a
join-none no_entries = refl
join-none (entry_then k v a) = ap (entry_then k v) (join-none a)

pub set_all-join :
    (es so_far : Entries)
    → HasDistinctKeys es
    → Apart so_far es
    → set_all es so_far ≡ join so_far es
set_all-join no_entries so_far d a = sym (join-none so_far)
set_all-join (entry_then k v es) so_far (f, d) (n, a) = rw (set_entry-new k v so_far n) (
    set_all-join es (join so_far (entry_then k v no_entries)) d (Apart-join so_far es k v a f)
    ∙ join-join so_far k v es)

pub Apart-none : (es : Entries) → Apart no_entries es
Apart-none no_entries = tt
Apart-none (entry_then k v es) = (tt, Apart-none es)

-- The keys are not changed.
pub form-IsFresh : (k : Bytes) (es : Entries) → IsFresh k es → IsFresh k (form_entries es)
form-IsFresh k no_entries h = tt
form-IsFresh k (entry_then l w es) (e, h) = (e, form-IsFresh k es h)

pub form-HasDistinctKeys : (es : Entries) → HasDistinctKeys es → HasDistinctKeys (form_entries es)
form-HasDistinctKeys no_entries d = tt
form-HasDistinctKeys (entry_then k v es) (f, d) = (form-IsFresh k es f, form-HasDistinctKeys es d)

pub set_all-distinct :
    (es : Entries) → HasDistinctKeys es → set_all (form_entries es) no_entries ≡ form_entries es
set_all-distinct es d =
    set_all-join (form_entries es) no_entries (form-HasDistinctKeys es d)
      (Apart-none (form_entries es))
