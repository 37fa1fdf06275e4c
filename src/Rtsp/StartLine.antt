-- ===== src/Rtsp/StartLine.antt =====
-- packages/rtsp/src: the first line of a request and of a response, written and matched.
use apple_protocols.Prelude.{ℕ, [], ◌∷◌, ◌++◌, some, Bool, true, false, ◌≡◌, refl, arith}
use apple_protocols.Rtsp.Text.{
  Text, codes, is_space, is_ink, is_digit, is_inline, is_empty, all, take_while, drop_while,
}
use apple_protocols.Rtsp.Decimal.{to_text, value-to_text, to_text-all, to_text-nonempty}
use apple_protocols.Rtsp.Parse.{
  is_version, match_request_line, match_status_line, match_status_at, match_number,
  blanks_then_line,
}
use apple_protocols.Rtsp.Build.{Protocol, rtsp, http, version_text, status_line}
use apple_protocols.Rtsp.Lines.{is_not_return, IsLine, all_split}

take_while-append :
    (p : ℕ → Bool) (cs : Text) (d : ℕ) (ds : Text)
    → all p cs ≡ true
    → p d ≡ false
    → take_while p (cs ++ d ∷ ds) ≡ cs
take_while-append p [] d ds h k = ground arith
take_while-append p (c ∷ cs) d ds h k = ground (arith, take_while-append p cs d ds)

drop_while-append :
    (p : ℕ → Bool) (cs : Text) (d : ℕ) (ds : Text)
    → all p cs ≡ true
    → p d ≡ false
    → drop_while p (cs ++ d ∷ ds) ≡ d ∷ ds
drop_while-append p [] d ds h k = ground arith
drop_while-append p (c ∷ cs) d ds h k = ground (arith, drop_while-append p cs d ds)

pub take_while-all : (p : ℕ → Bool) (cs : Text) → all p cs ≡ true → take_while p cs ≡ cs
take_while-all p [] h = refl
take_while-all p (c ∷ cs) h = ground (arith, take_while-all p cs)

-- A method or a path.
pub record IsWord (word : Text) : Type 0 where
  pub inked : all is_ink word ≡ true
  pub nonempty : is_empty word ≡ false

drop_while-word :
    (word behind : Text) → IsWord word → drop_while is_space (word ++ behind) ≡ word ++ behind
drop_while-word [] behind w = absurd (ground (arith, w.nonempty))
drop_while-word (c ∷ cs) behind w = ground (arith, all_split is_ink c cs w.inked)

drop_while-version :
    (protocol : Protocol)
    → drop_while is_space (codes " " ++ version_text protocol) ≡ version_text protocol
drop_while-version rtsp = refl
drop_while-version http = refl

is_version-text : (protocol : Protocol) → is_version (version_text protocol) ≡ true
is_version-text rtsp = refl
is_version-text http = refl

abbrev pub request_line : Text → Text → Protocol → Text
request_line method path protocol =
    method ++ (codes " " ++ (path ++ (codes " " ++ version_text protocol)))

pub match_request_line-request_line :
    (method path : Text) (protocol : Protocol)
    → IsWord method
    → IsWord path
    → match_request_line (request_line method path protocol) ≡ some (method, path)
unfolding match_request_line
match_request_line-request_line method path protocol m p =
    rw
      (
        take_while-append is_ink method 32 (path ++ (codes " " ++ version_text protocol)) m.inked
            refl,
        drop_while-append is_ink method 32 (path ++ (codes " " ++ version_text protocol)) m.inked
            refl,
        drop_while-word path (codes " " ++ version_text protocol) p,
        take_while-append is_ink path 32 (version_text protocol) p.inked refl,
        drop_while-append is_ink path 32 (version_text protocol) p.inked refl,
        drop_while-version protocol,
        m.nonempty,
        p.nonempty,
        is_version-text protocol,
      )
      refl

-- A status text that starts with no blank and stays in its line.
pub record IsReason (reason : Text) : Type 0 where
  pub whole : all is_inline reason ≡ true
  pub inked : take_while is_space reason ≡ []
  pub nonempty : is_empty reason ≡ false

blanks_then_line-reason :
    (reason : Text) → IsReason reason → blanks_then_line (32 ∷ reason) ≡ some reason
blanks_then_line-reason [] r = absurd (ground (arith, r.nonempty))
blanks_then_line-reason (c ∷ cs) r =
    ground (arith, r.inked, r.whole, take_while-all is_inline (c ∷ cs) r.whole)

drop_while-digits :
    (digits behind : Text)
    → all is_digit digits ≡ true
    → is_empty digits ≡ false
    → drop_while is_space (digits ++ behind) ≡ digits ++ behind
drop_while-digits [] behind h k = absurd (ground (arith, k))
drop_while-digits (c ∷ cs) behind h k = ground (arith, all_split is_digit c cs h)

match_number-status :
    (status : ℕ) (reason : Text)
    → IsReason reason
    → match_number (32 ∷ to_text status ++ 32 ∷ reason) ≡ some (status, reason)
match_number-status status reason r =
    rw
      (
        drop_while-digits (to_text status) (32 ∷ reason) (to_text-all status)
            (to_text-nonempty status),
        take_while-append is_digit (to_text status) 32 reason (to_text-all status) refl,
        drop_while-append is_digit (to_text status) 32 reason (to_text-all status) refl,
        blanks_then_line-reason reason r,
        to_text-nonempty status,
        value-to_text status,
      )
      refl

match_status_at-status_line :
    (protocol : Protocol) (status : ℕ) (reason : Text)
    → IsReason reason
    → match_status_at (status_line protocol status reason) ≡ some (status, reason)
unfolding status_line match_status_at
match_status_at-status_line rtsp status reason r = match_number-status status reason r
match_status_at-status_line http status reason r = match_number-status status reason r

match_status_line-at :
    (line : Text) (found : ℕ × Text)
    → match_status_at line ≡ some found
    → match_status_line line ≡ some found
unfolding match_status_line
match_status_line-at [] found h = absurd (ground (arith, h))
match_status_line-at (c ∷ cs) found h = rw h refl

pub match_status_line-status_line :
    (protocol : Protocol) (status : ℕ) (reason : Text)
    → IsReason reason
    → match_status_line (status_line protocol status reason) ≡ some (status, reason)
match_status_line-status_line protocol status reason r =
    match_status_line-at (status_line protocol status reason) (status, reason)
      (match_status_at-status_line protocol status reason r)

all_append : (p : ℕ → Bool) (a b : Text) → all p a ≡ true → all p b ≡ true → all p (a ++ b) ≡ true
all_append p [] b h k = k
all_append p (c ∷ cs) b h k =
    rw ((all_split p c cs h).0, all_append p cs b (all_split p c cs h).1 k) refl

pub all_weaken :
    (p q : ℕ → Bool)
    → ((c : ℕ) → p c ≡ true → q c ≡ true)
    → (cs : Text) → all p cs ≡ true
    → all q cs ≡ true
all_weaken p q f [] h = refl
all_weaken p q f (c ∷ cs) h =
    rw (f c (all_split p c cs h).0, all_weaken p q f cs (all_split p c cs h).1) refl

ink_is_not_return : (c : ℕ) → is_ink c ≡ true → is_not_return c ≡ true
ink_is_not_return c h = ground arith

pub digit_is_not_return : (c : ℕ) → is_digit c ≡ true → is_not_return c ≡ true
digit_is_not_return c h = ground arith

inline_is_not_return : (c : ℕ) → is_inline c ≡ true → is_not_return c ≡ true
inline_is_not_return c h = ground arith

version_text-unbroken : (protocol : Protocol) → all is_not_return (version_text protocol) ≡ true
version_text-unbroken rtsp = refl
version_text-unbroken http = refl

pub status_line-IsLine :
    (protocol : Protocol) (status : ℕ) (reason : Text)
    → IsReason reason
    → IsLine (status_line protocol status reason)
unfolding status_line
status_line-IsLine rtsp status reason r =
    all_append is_not_return (to_text status) (32 ∷ reason)
      (all_weaken is_digit is_not_return digit_is_not_return (to_text status) (to_text-all status))
      (all_weaken is_inline is_not_return inline_is_not_return reason r.whole)
status_line-IsLine http status reason r =
    all_append is_not_return (to_text status) (32 ∷ reason)
      (all_weaken is_digit is_not_return digit_is_not_return (to_text status) (to_text-all status))
      (all_weaken is_inline is_not_return inline_is_not_return reason r.whole)

pub request_line-IsLine :
    (method path : Text) (protocol : Protocol)
    → IsWord method
    → IsWord path
    → IsLine (request_line method path protocol)
request_line-IsLine [] path protocol m p = absurd (ground (arith, m.nonempty))
request_line-IsLine (c ∷ cs) path protocol m p =
    all_append is_not_return (c ∷ cs) (32 ∷ path ++ (32 ∷ version_text protocol))
      (all_weaken is_ink is_not_return ink_is_not_return (c ∷ cs) m.inked)
      (all_append is_not_return path (32 ∷ version_text protocol)
        (all_weaken is_ink is_not_return ink_is_not_return path p.inked)
        (version_text-unbroken protocol))
