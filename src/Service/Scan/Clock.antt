-- ===== src/Service/Scan/Clock.antt =====
-- The arithmetic of the clocks of an issue: what a scan adds fits the time that has passed.
use sonarr_remediator.Base.{
  ℤ, pos, ◌≤ℤ◌, ◌<ℤ◌, ◌+ℤ◌, ◌-ℤ◌, ◌+int◌, +ℤ_parts, -ℤ_parts, min_ℤ, sub_time, saturate, wrap,
  wrap_of_InRange, InRange, ◌≡◌, ◌^◌, arith, true, false, Bool, Bool-cases, inl, inr, is_zero,
  int_beq, int_beq_iff, refl, if◌then◌else◌, ltb_ℤ, leb_ℤ,
}

-- Counted time fits a span that ends at `end`.
abbrev pub Fits : ℤ → ℤ → ℤ → Type 0
Fits elapsed start end = (pos 0 ≤ℤ elapsed) × ((elapsed +ℤ start) ≤ℤ end)

saturate-le : (a : ℤ) → pos 0 <ℤ a → (pos 0 <ℤ saturate a) × (saturate a ≤ℤ a)
unfolding saturate
saturate-le a h = (ground arith, ground arith)

pub sub_time-Fits : (now last : ℤ) → last <ℤ now → Fits (sub_time now last) last now
unfolding sub_time
sub_time-Fits now last h =
    let (low, high) = saturate-le (now -ℤ last) (omega (arith, -ℤ_parts now last)) in
    (
      omega (arith, low),
      omega (arith, low, high, -ℤ_parts now last, +ℤ_parts (saturate (now -ℤ last)) last),
    )

pub lt-of-ltb_ℤ : (a b : ℤ) → ltb_ℤ a b ≡ true → a <ℤ b
lt-of-ltb_ℤ a b h = ground arith

pub le-of-ltb_ℤ : (a b : ℤ) → ltb_ℤ a b ≡ false → b ≤ℤ a
le-of-ltb_ℤ a b h = ground arith

pub le-of-leb_ℤ : (a b : ℤ) → leb_ℤ a b ≡ true → a ≤ℤ b
le-of-leb_ℤ a b h = ground arith

if-elim :
    (P : ℤ → Type 0) (t : Bool) (a b : ℤ)
    → (t ≡ true → P a)
    → (t ≡ false → P b)
    → P (if t then a else b)
if-elim P true a b f g = f refl
if-elim P false a b f g = g refl

pub min-Fits : (a b start end : ℤ) → pos 0 ≤ℤ b → Fits a start end → Fits (min_ℤ a b) start end
min-Fits a b start end h (low, fits) =
    if-elim (λ x. Fits x start end) (ltb_ℤ b a) b a
      (λ y. (h, omega (arith, lt-of-ltb_ℤ b a y, +ℤ_parts a start, +ℤ_parts b start)))
      (λ n. (low, fits))

pub min-Fits-swap : (a b start end : ℤ) → pos 0 ≤ℤ b → Fits a start end → Fits (min_ℤ b a) start end
min-Fits-swap a b start end h (low, fits) =
    if-elim (λ x. Fits x start end) (ltb_ℤ a b) a b (λ y. (low, fits))
      (λ n. (h, omega (arith, le-of-ltb_ℤ a b n, +ℤ_parts a start, +ℤ_parts b start)))

pub InRange-of-lt : (a : ℤ) → pos 0 ≤ℤ a → a <ℤ pos (2 ^ 63) → InRange a
InRange-of-lt a low high = (ground arith, ground arith)

-- What has been counted up to `last`, and what passed from `last` to `now`; counted from `first`, it is less
-- than an `int64`.
pub add-Fits :
    (elapsed delta first start last now : ℤ)
    → Fits elapsed first last
    → Fits elapsed start last
    → Fits delta last now
    → now <ℤ (first +ℤ pos (2 ^ 63))
    → Fits (elapsed +int delta) start now
unfolding ◌+int◌
add-Fits elapsed delta first start last now (low, old) (same, fits) (low', fits') young =
    let sum = +ℤ_parts elapsed delta in
    let e : wrap (elapsed +ℤ delta) ≡ elapsed +ℤ delta = wrap_of_InRange (elapsed +ℤ delta) (
      InRange-of-lt (elapsed +ℤ delta) (omega (arith, sum)) (
        omega (
          arith,
          sum,
          +ℤ_parts elapsed first,
          +ℤ_parts delta last,
          +ℤ_parts first (pos (2 ^ 63)),
        ))) in
    rw e (
      omega (arith, sum),
      omega (
        arith,
        sum,
        +ℤ_parts elapsed start,
        +ℤ_parts delta last,
        +ℤ_parts (elapsed +ℤ delta) start,
      ),
    )

pub Fits-le :
    (elapsed start last now : ℤ) → last ≤ℤ now → Fits elapsed start last → Fits elapsed start now
Fits-le elapsed start last now h (low, fits) = (low, omega arith)

pub Fits-zero : (start now : ℤ) → start ≤ℤ now → Fits (pos 0) start now
Fits-zero start now h = (omega arith, omega (arith, +ℤ_parts (pos 0) start))

-- Where a count ends whose last addition was at `mark`, if it has one.
abbrev pub end_of : ℤ → ℤ → ℤ
end_of t mark = if is_zero mark then t else mark

pub end_of-le : (t now mark : ℤ) → t ≤ℤ now → end_of t mark ≤ℤ end_of now mark
end_of-le t now mark h = elim (Bool-cases (is_zero mark)) [
  | inl y ↦ rw y h
  | inr n ↦ rw n (omega arith)
]

pub end_of-bound : (now mark : ℤ) → mark ≤ℤ now → end_of now mark ≤ℤ now
end_of-bound now mark h = elim (Bool-cases (is_zero mark)) [
  | inl y ↦ rw y (omega arith)
  | inr n ↦ rw n h
]

pub is_zero-true : (t : ℤ) → is_zero t ≡ true → t ≡ pos 0
unfolding is_zero
is_zero-true t h = (int_beq_iff t (pos 0)).0 h

pub end_of-zero : (t : ℤ) → end_of t (pos 0) ≡ t
unfolding is_zero int_beq
end_of-zero t = refl

pub end_of_self : (now : ℤ) → end_of now now ≡ now
end_of_self now = elim (Bool-cases (is_zero now)) [ inl y ↦ rw y refl | inr n ↦ rw n refl ]
