-- ===== src/Encoding/Opack/Tag.antt =====
-- The first byte of a packed value, as the decoder's tests tell the kinds apart.
use apple_protocols.Prelude.{
  ℕ, ◌+◌, ◌-◌, ◌/◌, ◌%◌, ◌^◌, ◌≤◌, ◌<◌, ◌&&◌, leb, ◌==◌, if◌then◌else◌, ◌≡◌, arith,
}

pub data Tag : Type 0 where
  true_tag false_tag null_tag uuid_tag timestamp_tag float_32_tag float_64_tag unknown_tag : Tag
  inline_int : ℕ → Tag
  sized_int : ℕ → Tag
  inline_text : ℕ → Tag
  long_text : ℕ → Tag
  inline_bytes : ℕ → Tag
  long_bytes : ℕ → Tag
  array_of : ℕ → Tag
  array_to_end : Tag
  dict_of : ℕ → Tag
  dict_to_end : Tag
  inline_reference : ℕ → Tag
  long_reference : ℕ → Tag

-- The tests of `_unpackAt` in their order. A mask of the high four bits is a quotient by 16; what
-- is left of a range is its length, or the number of bytes that hold the length.
unfoldable pub tag_of : ℕ → Tag
tag_of b =
    if b == 0x01
    then true_tag
    else if b == 0x02
    then false_tag
    else if b == 0x04
    then null_tag
    else if b == 0x05
    then uuid_tag
    else if b == 0x06
    then timestamp_tag
    else if leb 0x08 b && leb b 0x2F
    then inline_int (b - 0x08)
    else if b == 0x35
    then float_32_tag
    else if b == 0x36
    then float_64_tag
    else if b / 16 == 3
    then sized_int (2 ^ (b % 16))
    else if leb 0x40 b && leb b 0x60
    then inline_text (b - 0x40)
    else if leb 0x61 b && leb b 0x64
    then long_text (b % 16)
    else if leb 0x70 b && leb b 0x90
    then inline_bytes (b - 0x70)
    else if leb 0x91 b && leb b 0x93
    then long_bytes (2 ^ (b % 16 - 1))
    else if b / 16 == 13
    then (if b % 16 == 15 then array_to_end else array_of (b % 16))
    else if b / 16 == 14
    then (if b % 16 == 15 then dict_to_end else dict_of (b % 16))
    else if leb 0xA0 b && leb b 0xC0
    then inline_reference (b - 0xA0)
    else if leb 0xC1 b && leb b 0xC4
    then long_reference (b - 0xC0)
    else unknown_tag

-- The tags that carry a small number in themselves.
pub tag_of-inline_int : (v : ℕ) → v ≤ 0x27 → tag_of (0x08 + v) ≡ inline_int v
unfolding tag_of
tag_of-inline_int v h = ground arith

pub tag_of-inline_text : (n : ℕ) → n ≤ 0x20 → tag_of (0x40 + n) ≡ inline_text n
unfolding tag_of
tag_of-inline_text n h = ground arith

pub tag_of-inline_bytes : (n : ℕ) → n ≤ 0x20 → tag_of (0x70 + n) ≡ inline_bytes n
unfolding tag_of
tag_of-inline_bytes n h = ground arith

pub tag_of-inline_reference : (i : ℕ) → i ≤ 0x20 → tag_of (0xA0 + i) ≡ inline_reference i
unfolding tag_of
tag_of-inline_reference i h = ground arith

pub tag_of-array_of : (n : ℕ) → n < 0x0F → tag_of (0xD0 + n) ≡ array_of n
unfolding tag_of
tag_of-array_of n h = ground arith

pub tag_of-dict_of : (n : ℕ) → n < 0x0F → tag_of (0xE0 + n) ≡ dict_of n
unfolding tag_of
tag_of-dict_of n h = ground arith
