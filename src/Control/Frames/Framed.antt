-- ===== src/Control/Frames/Framed.antt =====
-- A frame that is written is read back.
use Prim.Native.Nat.{ℕ, ◌%◌, ◌/◌, ◌≤◌, ◌<◌}
use sonarr_remediator.Base.{
  ltb, false, ◌||◌, ◌≡◌, ◌≢◌, refl, sym, ◌∙◌, ap, subst, arith, [], ◌∷◌, ◌++◌, ◌==◌, nat_eq, length,
  take, length-append, ok, Bool-cases, inl, inr, none, ok-injective,
}
use sonarr_remediator.Control.Frames.{
  Bytes, put_header, get_header, Codec, write_frame, read_body, read_frame,
}

header-roundtrip :
    (n : ℕ)
    → n < 4294967296
    → get_header
        ((n % 4294967296) / 16777216)
        (((n % 4294967296) / 65536) % 256)
        (((n % 4294967296) / 256) % 256)
        ((n % 4294967296) % 256)
      ≡ n
unfolding get_header
header-roundtrip n h = omega arith

length-lt : (xs : Bytes) → xs ≢ [] → 0 < length xs
length-lt [] h = absurd (h refl)
length-lt (x ∷ xs) h = omega arith

not-refused : (n limit : ℕ) → 0 < n → n ≤ limit → (n == 0 || ltb limit n) ≡ false
not-refused n limit h k = ground arith

ltb-false : (m n : ℕ) → n ≤ m → ltb m n ≡ false
ltb-false m n h = ground arith

module _ {ℓ} {V : Type ℓ} (codec : Codec V) where
  take-append : (xs ys : Bytes) → take (length xs) (xs ++ ys) ≡ xs
  take-append [] ys = refl
  take-append (x ∷ xs) ys = ap (λ rest. x ∷ rest) (take-append xs ys)

  -- Whatever follows the frame.
  read_body-append :
      (limit : ℕ) (body after : Bytes) (v : V)
      → body ≢ []
      → length body ≤ limit
      → codec.check body ≡ none
      → codec.decode body ≡ ok v
      → read_body codec limit (length body) (body ++ after) ≡ ok v
  unfolding read_body
  read_body-append limit body after v full fits checked decoded =
      let some_bytes = not-refused (length body) limit (length-lt body full) fits in
      let enough =
        ltb-false (length (body ++ after)) (length body)
          (omega (arith, length-append body after)) in
      let same = sym (take-append body after) in
      let checked' = subst (λ b. codec.check b ≡ none) same checked in
      rw (some_bytes, enough, checked', read_body) (subst (λ b. codec.decode b ≡ ok v) same decoded)

  -- What is written within the limit is read back, whatever follows it: if the encoding of a value is not empty,
  -- passes the checks and decodes to the value, and the limit of the reader is at least the writer's and less
  -- than 2 ^ 32.
  pub read_frame-write_frame :
      (limit reach : ℕ) (v : V) (frame after : Bytes)
      → limit ≤ reach
      → reach < 4294967296
      → codec.encode v ≢ []
      → codec.check (codec.encode v) ≡ none
      → codec.decode (codec.encode v) ≡ ok v
      → write_frame codec limit v ≡ ok frame
      → read_frame codec reach (frame ++ after) ≡ ok v
  unfolding read_frame write_frame put_header
  read_frame-write_frame limit reach v frame after wide small full checked decoded written =
      elim (Bool-cases (ltb limit (length (codec.encode v)))) [
        | inl y ↦ absurd (ground arith)
        | inr n ↦
            let body = codec.encode v in
            let fits : length body ≤ limit = ground arith in
            let same : put_header (length body) ++ body ≡ frame =
              ok-injective (sym (rw (n, write_frame) refl) ∙ written) in
            let read =
              read_body-append reach body after v full (omega (arith, fits)) checked decoded in
            let header = header-roundtrip (length body) (omega (arith, fits)) in
            subst (λ f. read_frame codec reach (f ++ after) ≡ ok v) same
              (subst (λ m. read_body codec reach m (body ++ after) ≡ ok v) (sym header) read)
      ]
