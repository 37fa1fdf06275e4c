-- ===== src/Rtsp/Parsed.antt =====
-- packages/rtsp/src/encoding.ts: what a parser gives, or what it throws.
use apple_protocols.Prelude.{◌≡◌, refl, arith}

-- `bad_response` is what the constructor of `Response` throws.
pub data Fault : Type 0 where
  headers_too_long bad_request_line bad_status_line conflicting_length bad_length : Fault
  bad_response : Fault

pub data Parsed (A : Type 0) : Type 0 where
  ok : A → Parsed A
  thrown : Fault → Parsed A

module _ {A B : Type 0} where
  abbrev pub bind : Parsed A → (A → Parsed B) → Parsed B
  bind (ok a) f = f a
  bind (thrown fault) f = thrown fault

  -- A chain that ends well has a first part that does.
  pub bind-eq_ok :
      (o : Parsed A) (f : A → Parsed B) (b : B)
      → bind o f ≡ ok b
      → (a : A) × ((o ≡ ok a) × (f a ≡ ok b))
  bind-eq_ok (ok a) f b h = (a, (refl, h))
  bind-eq_ok (thrown fault) f b h = absurd (ground (arith, h))
