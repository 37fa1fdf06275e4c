-- ===== src/Rtsp/Lines.antt =====
-- packages/rtsp/src/encoding.ts: where a head ends, and its lines.
use apple_protocols.Prelude.{
  ℕ, ◌+◌, List, [], ◌∷◌, ◌++◌, some, Bool, true, not, ◌==◌, ◌≡◌, refl, sym, ap, subst, ◌∙◌, arith,
  length, append_assoc, append-nil, length-append,
}
use apple_protocols.Rtsp.Text.{Text, crlf, all, after, index_of, split, join}
use apple_protocols.Rtsp.Parse.{head_end}

abbrev pub is_not_return : ℕ → Bool
is_not_return c = not (c == b'\r')

-- A line of a head: no line is empty, and none has a carriage return.
abbrev pub IsLine : Text → Type 0
IsLine [] = ⊥
IsLine (c ∷ cs) = all is_not_return (c ∷ cs) ≡ true

abbrev pub AreLines : List Text → Type 0
AreLines [] = Unit
AreLines (l ∷ ls) = IsLine l × AreLines ls

pub all_split :
    (p : ℕ → Bool) (c : ℕ) (cs : Text) → all p (c ∷ cs) ≡ true → (p c ≡ true) × (all p cs ≡ true)
all_split p c cs h = ground arith

index_of-step :
    (c : ℕ) (cs : Text)
    → is_not_return c ≡ true
    → index_of head_end (c ∷ cs) ≡ after (index_of head_end cs)
index_of-step c cs h = ground arith

-- Characters of a line are stepped over.
index_of-line :
    (l behind : Text) (i : ℕ)
    → all is_not_return l ≡ true
    → index_of head_end behind ≡ some i
    → index_of head_end (l ++ behind) ≡ some (length l + i)
index_of-line [] behind i h e = rw e (ap some (omega arith))
index_of-line (c ∷ cs) behind i h e =
    let (first, others) = all_split is_not_return c cs h in
    index_of-step c (cs ++ behind) first
    ∙ ap after (index_of-line cs behind i others e)
    ∙ ap some (omega arith)

index_of-crlf :
    (c : ℕ) (cs : Text) (i : ℕ)
    → is_not_return c ≡ true
    → index_of head_end (c ∷ cs) ≡ some i
    → index_of head_end (crlf ++ c ∷ cs) ≡ some (2 + i)
index_of-crlf c cs i h e = ground arith

pub join-cons : (c : ℕ) (cs : Text) (ls : List Text) → join ((c ∷ cs) ∷ ls) ≡ c ∷ join (cs ∷ ls)
join-cons c cs [] = refl
join-cons c cs (l ∷ ls) = refl

-- The first end of a head is the one behind its lines.
pub index_of-join :
    (l : Text) (ls : List Text) (behind : Text)
    → AreLines (l ∷ ls)
    → index_of head_end (join (l ∷ ls) ++ (head_end ++ behind)) ≡ some (length (join (l ∷ ls)))
index_of-join [] ls behind (h, hs) = absurd h
index_of-join (c ∷ cs) [] behind (h, hs) =
    index_of-line (c ∷ cs) (head_end ++ behind) 0 h refl ∙ ap some (omega arith)
index_of-join (b ∷ bs) ([] ∷ ls) behind (h, (g, hs)) = absurd g
index_of-join (b ∷ bs) ((c ∷ cs) ∷ ls) behind (h, (g, hs)) =
    rw (append_assoc (b ∷ bs) (crlf ++ join ((c ∷ cs) ∷ ls)) (head_end ++ behind)) (
      index_of-line (b ∷ bs) (crlf ++ (join ((c ∷ cs) ∷ ls) ++ (head_end ++ behind)))
        (2 + length (join ((c ∷ cs) ∷ ls))) h
        (rw (join-cons c cs ls) (
          index_of-crlf c (join (cs ∷ ls) ++ (head_end ++ behind)) (length (c ∷ join (cs ∷ ls)))
            (all_split is_not_return c cs g).0
            (subst (λ t. index_of head_end (t ++ (head_end ++ behind)) ≡ some (length t))
              (join-cons c cs ls) (index_of-join (c ∷ cs) ls behind (g, hs)))))
      ∙ ap some (omega (arith, length-append (b ∷ bs) (crlf ++ join ((c ∷ cs) ∷ ls)))))

split-step :
    (c : ℕ) (cs : Text) (l : Text) (ls : List Text)
    → is_not_return c ≡ true
    → split cs ≡ l ∷ ls
    → split (c ∷ cs) ≡ (c ∷ l) ∷ ls
split-step c [] l ls h e = ground arith
split-step c (d ∷ cs) l ls h e = ground arith

split-line :
    (l behind : Text) (m : Text) (ls : List Text)
    → all is_not_return l ≡ true
    → split behind ≡ m ∷ ls
    → split (l ++ behind) ≡ (l ++ m) ∷ ls
split-line [] behind m ls h e = e
split-line (c ∷ cs) behind m ls h e =
    split-step c (cs ++ behind) (cs ++ m) ls (all_split is_not_return c cs h).0
      (split-line cs behind m ls (all_split is_not_return c cs h).1 e)

split-whole : (l : Text) → all is_not_return l ≡ true → split l ≡ l ∷ []
split-whole [] h = refl
split-whole (c ∷ cs) h =
    split-step c cs cs [] (all_split is_not_return c cs h).0
      (split-whole cs (all_split is_not_return c cs h).1)

-- The lines of a head are those that were joined.
pub split-join : (l : Text) (ls : List Text) → AreLines (l ∷ ls) → split (join (l ∷ ls)) ≡ l ∷ ls
split-join [] ls (h, hs) = absurd h
split-join (c ∷ cs) [] (h, hs) = split-whole (c ∷ cs) h
split-join (b ∷ bs) (m ∷ ls) (h, hs) =
    split-line (b ∷ bs) (crlf ++ join (m ∷ ls)) [] (m ∷ ls) h (ap (◌∷◌ []) (split-join m ls hs))
    ∙ ap (λ l. l ∷ m ∷ ls) (append-nil (b ∷ bs))

pub join-end :
    (l : Text) (ls : List Text) → join (l ∷ ls ++ ([] ∷ [] ∷ [])) ≡ join (l ∷ ls) ++ head_end
join-end l [] = refl
join-end l (m ∷ ls) = rw (join-end m ls) (sym (append_assoc l (crlf ++ join (m ∷ ls)) head_end))
