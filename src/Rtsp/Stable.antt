-- ===== src/Rtsp/Stable.antt =====
-- packages/rtsp/src/encoding.ts: what the parsers read stays the same when more bytes arrive.
use apple_protocols.Prelude.{
  ℕ, suc, ◌+◌, ◌≤◌, [], ◌∷◌, ◌++◌, Option, none, some, true, false, ltb, ◌≡◌, refl, sym, ap, ◌∙◌,
  arith, length, take, drop, Bytes, ◌≢◌, inl, inr, ◌⊎◌, Bool-cases, length-append, take-append_le,
  ltb_false→le, le→ltb_false,
}
use apple_protocols.Rtsp.Parsed.{Parsed, ok, bind-eq_ok}
use apple_protocols.Rtsp.Text.{Text, starts_with, after, index_of}
use apple_protocols.Rtsp.Headers.{Headers, parse_content_length}
use apple_protocols.Rtsp.Parse.{
  Message, max_header_length, head_end, head_length, checked, with_body, parse_after, parse_message,
}

starts_with-append :
    (ns cs behind : Text)
    → length ns ≤ length cs
    → starts_with ns (cs ++ behind) ≡ starts_with ns cs
starts_with-append [] cs behind h = refl
starts_with-append (n ∷ ns) [] behind h = absurd (omega arith)
starts_with-append (n ∷ ns) (c ∷ cs) behind h =
    rw (starts_with-append ns cs behind (omega arith)) refl

length-starts_with : (ns cs : Text) → starts_with ns cs ≡ true → length ns ≤ length cs
length-starts_with [] cs h = omega arith
length-starts_with (n ∷ ns) [] h = absurd (ground arith)
length-starts_with (n ∷ ns) (c ∷ cs) h = ground (arith, length-starts_with ns cs)

-- The step of `indexOf`, as a value.
index_of-cons :
    (n : ℕ) (ns : Text) (c : ℕ) (cs : Text)
    → ((starts_with (n ∷ ns) (c ∷ cs) ≡ true) × (index_of (n ∷ ns) (c ∷ cs) ≡ some 0))
      ⊎ ((starts_with (n ∷ ns) (c ∷ cs) ≡ false)
          × (index_of (n ∷ ns) (c ∷ cs) ≡ after (index_of (n ∷ ns) cs)))
index_of-cons n ns c cs = elim (Bool-cases (starts_with (n ∷ ns) (c ∷ cs))) [
  | inl e ↦ inl (e, ground (arith, e))
  | inr e ↦ inr (e, ground (arith, e))
]

after-some : (o : Option ℕ) (i : ℕ) → after o ≡ some i → (j : ℕ) × ((o ≡ some j) × (i ≡ suc j))
after-some none i h = absurd (ground (arith, h))
after-some (some j) i h = (j, (refl, ground (arith, h)))

ok_inj : {A : Type 0} {a b : A} → ok a ≡ ok b → a ≡ b
ok_inj h = cc

some_inj : {A : Type 0} {a b : A} → some a ≡ some b → a ≡ b
some_inj h = cc

length-index_of :
    (n : ℕ) (ns cs : Text) (i : ℕ) → index_of (n ∷ ns) cs ≡ some i → i + length (n ∷ ns) ≤ length cs
length-index_of n ns [] i h = absurd (ground (arith, h))
length-index_of n ns (c ∷ cs) i h = elim (index_of-cons n ns c cs) [
  | inl (s, e) ↦ omega (arith, some_inj (sym e ∙ h), length-starts_with (n ∷ ns) (c ∷ cs) s)
  | inr (s, e) ↦
      let (j, (f, g)) = after-some (index_of (n ∷ ns) cs) i (sym e ∙ h) in
      omega (arith, g, length-index_of n ns cs j f)
]

-- The first place stays the first when the text is longer.
index_of-append :
    (n : ℕ) (ns cs behind : Text) (i : ℕ)
    → index_of (n ∷ ns) cs ≡ some i
    → index_of (n ∷ ns) (cs ++ behind) ≡ some i
index_of-append n ns [] behind i h = absurd (ground (arith, h))
index_of-append n ns (c ∷ cs) behind i h = elim (index_of-cons n ns c cs) [
  | inl (s, e) ↦
      let same =
        starts_with-append (n ∷ ns) (c ∷ cs) behind (length-starts_with (n ∷ ns) (c ∷ cs) s) in
      elim (index_of-cons n ns c (cs ++ behind)) [
        | inl (t, u) ↦ u ∙ sym e ∙ h
        | inr (t, u) ↦ absurd (ground (arith, s, sym same ∙ t))
      ]
  | inr (s, e) ↦
      let (j, (f, g)) = after-some (index_of (n ∷ ns) cs) i (sym e ∙ h) in
      elim (index_of-cons n ns c (cs ++ behind)) [
        | inl (t, u) ↦ absurd (
            ground (
              arith,
              s,
              sym (
                    starts_with-append (n ∷ ns) (c ∷ cs) behind
                      (omega (arith, length-index_of n ns (c ∷ cs) i h)))
                  ∙ t,
            ))
        | inr (t, u) ↦ u ∙ ap after (index_of-append n ns cs behind j f) ∙ ap some (sym g)
      ]
]

module _ {A : Type 0} (parse_head : Text → Parsed (A × Headers)) where
  -- What there is to a message that was read.
  pub record IsRead (buffer : Bytes) (m : Message A) : Type 0 where
    pub head : ℕ
    pub size : ℕ
    pub found : index_of head_end buffer ≡ some head
    pub small : head ≤ max_header_length
    pub parsed : parse_head (take head buffer) ≡ ok (m.start, m.headers)
    pub sized : parse_content_length m.headers ≡ ok size
    pub arrived : head + 4 + size ≤ length buffer
    pub counted : m.total ≡ head + 4 + size
    pub cut : m.body ≡ drop (head + 4) (take (head + 4 + size) buffer)

  IsRead-append :
      (buffer behind : Bytes) (m : Message A) → IsRead buffer m → IsRead (buffer ++ behind) m
  IsRead-append buffer behind m r = record {
    head = r.head;
    size = r.size;
    found = index_of-append 13 (10 ∷ 13 ∷ 10 ∷ []) buffer behind r.head r.found;
    small = r.small;
    parsed = rw (take-append_le r.head buffer behind (omega (arith, r.arrived))) r.parsed;
    sized = r.sized;
    arrived = omega (arith, r.arrived, length-append buffer behind);
    counted = r.counted;
    cut = rw (take-append_le (r.head + 4 + r.size) buffer behind r.arrived) r.cut;
  }

  parse_message-IsRead :
      (buffer : Bytes) (m : Message A)
      → IsRead buffer m
      → parse_message parse_head buffer ≡ ok (some m)
  unfolding parse_message head_length parse_after with_body
  parse_message-IsRead buffer m r =
      rw
        (
          r.found,
          le→ltb_false max_header_length r.head r.small,
          r.parsed,
          r.sized,
          le→ltb_false (length buffer) (r.head + 4 + r.size) r.arrived,
          ← r.cut,
          ← r.counted,
        )
        refl

  checked-ok :
      (size : ℕ) (o : Option ℕ) (n : ℕ)
      → checked size o ≡ ok (some n)
      → (o ≡ some n) × (n ≤ max_header_length)
  checked-ok size none n h = elim (Bool-cases (ltb max_header_length size)) [
    | inl e ↦ absurd (ground (arith, e, h))
    | inr e ↦ absurd (ground (arith, e, h))
  ]
  checked-ok size (some i) n h = elim (Bool-cases (ltb max_header_length i)) [
    | inl e ↦ absurd (ground (arith, e, h))
    | inr e ↦ ground (arith, e, h)
  ]

  with_body-some :
      (buffer : Bytes) (n : ℕ) (start : A) (headers : Headers) (size : ℕ) (m : Message A)
      → with_body parse_head buffer n (start, headers) size ≡ some m
      → (n + 4 + size ≤ length buffer)
        × (m ≡ record {
          start = start;
          headers = headers;
          body = drop (n + 4) (take (n + 4 + size) buffer);
          total = n + 4 + size;
        })
  unfolding with_body
  with_body-some buffer n start headers size m h =
      elim (Bool-cases (ltb (length buffer) (n + 4 + size))) [
        | inl e ↦ absurd (ground (arith, e, h))
        | inr e ↦ (ltb_false→le (length buffer) (n + 4 + size) e, ground (arith, e, h))
      ]

  IsRead-parse_after :
      (buffer : Bytes) (n : ℕ) (m : Message A)
      → index_of head_end buffer ≡ some n
      → n ≤ max_header_length
      → parse_after parse_head buffer (some n) ≡ ok (some m)
      → IsRead buffer m
  unfolding parse_after
  IsRead-parse_after buffer n m found small h =
      let ((start, headers), (p, g)) = bind-eq_ok (parse_head (take n buffer)) _ (some m) h in
      let (size, (c, w)) = bind-eq_ok (parse_content_length headers) _ (some m) g in
      let (fits, e) = with_body-some buffer n start headers size m (ok_inj w) in
      record {
        head = n;
        size = size;
        found = found;
        small = small;
        parsed = rw e p;
        sized = rw e c;
        arrived = fits;
        counted = rw e refl;
        cut = rw e refl;
      }

  parse_after-none :
      (buffer : Bytes) (m : Message A) → parse_after parse_head buffer none ≢ ok (some m)
  unfolding parse_after
  parse_after-none buffer m h = ground (arith, h)

  IsRead-parse_message :
      (buffer : Bytes) (m : Message A)
      → parse_message parse_head buffer ≡ ok (some m)
      → IsRead buffer m
  unfolding parse_message head_length
  IsRead-parse_message buffer m h =
      let (o, (c, g)) =
        bind-eq_ok (checked (length buffer) (index_of head_end buffer))
          (parse_after parse_head buffer) (some m) h in
      go o c g
    where
      go :
          (o : Option ℕ)
          → checked (length buffer) (index_of head_end buffer) ≡ ok o
          → parse_after parse_head buffer o ≡ ok (some m)
          → IsRead buffer m
      go none c g = absurd (parse_after-none buffer m g)
      go (some n) c g =
          let (found, small) = checked-ok (length buffer) (index_of head_end buffer) n c in
          IsRead-parse_after buffer n m found small g

  -- A message that is read from a buffer is read from every buffer that starts with it.
  pub parse_message-append :
      (buffer behind : Bytes) (m : Message A)
      → parse_message parse_head buffer ≡ ok (some m)
      → parse_message parse_head (buffer ++ behind) ≡ ok (some m)
  parse_message-append buffer behind m h =
      parse_message-IsRead (buffer ++ behind) m
        (IsRead-append buffer behind m (IsRead-parse_message buffer m h))

  -- It takes at least the end of its head, and no more than has arrived.
  pub parse_message-bounds :
      (buffer : Bytes) (m : Message A)
      → parse_message parse_head buffer ≡ ok (some m)
      → (4 ≤ m.total) × (m.total ≤ length buffer)
  parse_message-bounds buffer m h =
      let r = IsRead-parse_message buffer m h in
      (omega (arith, r.counted), omega (arith, r.counted, r.arrived))
