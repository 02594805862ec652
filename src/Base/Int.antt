-- ===== src/Base/Int.antt =====
-- Go's `int`, `int64`, `time.Time` and `time.Duration` as integers over the native numbers. Arithmetic
-- that the program does on `int` is followed by `wrap`, the difference of two times by `saturate`.
use Prim.Native.Nat.{ℕ, suc, ◌+◌, ◌-◌, ◌%◌, ◌^◌, ◌≤◌, ◌<◌}
use mathlib.Core.Path.{◌≡◌}
use mathlib.Core.Logic.{◌↔◌}
use mathlib.Core.Bool.{Bool, true, false, ◌&&◌}
use mathlib.Core.Option.{Option, none, some}
use native.Mathlib.Omega.{arith}
use sonarr_remediator.Base.Tests.{ltb, leb, if◌then◌else◌, Equality, nat_eq, ◌==◌}

-- `negsuc n` is -(n + 1).
pub data ℤ : Type 0 where
  pos : ℕ → ℤ
  negsuc : ℕ → ℤ

abbrev pub pos_part : ℤ → ℕ
pos_part (pos n) = n
pos_part (negsuc n) = 0

abbrev pub neg_part : ℤ → ℕ
neg_part (pos n) = 0
neg_part (negsuc n) = suc n

abbrev pub sub_ℕ : ℕ → ℕ → ℤ
sub_ℕ a b = if leb b a then pos (a - b) else negsuc (b - a - 1)

infixl 65 ◌+ℤ◌ ◌-ℤ◌ ◌+int◌ ◌-int◌
infix 50 ◌≤ℤ◌ ◌<ℤ◌
unfoldable pub ◌+ℤ◌ : ℤ → ℤ → ℤ
a +ℤ b = sub_ℕ (pos_part a + pos_part b) (neg_part a + neg_part b)

unfoldable pub ◌-ℤ◌ : ℤ → ℤ → ℤ
a -ℤ b = sub_ℕ (pos_part a + neg_part b) (neg_part a + pos_part b)

abbrev pub ◌≤ℤ◌ : ℤ → ℤ → Type 0
a ≤ℤ b = pos_part a + neg_part b ≤ pos_part b + neg_part a

abbrev pub ◌<ℤ◌ : ℤ → ℤ → Type 0
a <ℤ b = pos_part a + neg_part b < pos_part b + neg_part a

abbrev pub ltb_ℤ : ℤ → ℤ → Bool
ltb_ℤ a b = ltb (pos_part a + neg_part b) (pos_part b + neg_part a)

abbrev pub leb_ℤ : ℤ → ℤ → Bool
leb_ℤ a b = leb (pos_part a + neg_part b) (pos_part b + neg_part a)

pub +ℤ_parts :
    (a b : ℤ)
    → pos_part (a +ℤ b) + neg_part a + neg_part b ≡ neg_part (a +ℤ b) + pos_part a + pos_part b
unfolding ◌+ℤ◌
+ℤ_parts a b = ground arith

pub -ℤ_parts :
    (a b : ℤ)
    → pos_part (a -ℤ b) + neg_part a + pos_part b ≡ neg_part (a -ℤ b) + pos_part a + neg_part b
unfolding ◌-ℤ◌
-ℤ_parts a b = ground arith

pub eq_of_parts : (a b : ℤ) → pos_part a + neg_part b ≡ pos_part b + neg_part a → a ≡ b
eq_of_parts a b h = ground arith

unfoldable pub int_beq : ℤ → ℤ → Bool
int_beq a b = pos_part a == pos_part b && neg_part a == neg_part b

pub int_beq_iff : (a b : ℤ) → (int_beq a b ≡ true) ↔ (a ≡ b)
unfolding int_beq
int_beq_iff a b = ground (arith, eq_of_parts a b)

instance abbrev pub int_eq : Equality ℤ
int_eq = record { same = int_beq; same_iff = int_beq_iff }

-- The value modulo 2^64, and the 64-bit integer of those bits.
abbrev residue : ℤ → ℕ
residue (pos n) = n % 2 ^ 64
residue (negsuc n) = 2 ^ 64 - 1 - n % 2 ^ 64

unfoldable pub wrap : ℤ → ℤ
wrap a = let r = residue a in if ltb r (2 ^ 63) then pos r else negsuc (2 ^ 64 - 1 - r)

abbrev pub InRange : ℤ → Type 0
InRange a = (pos_part a < 2 ^ 63) × (neg_part a ≤ 2 ^ 63)

pub wrap-InRange : (a : ℤ) → InRange (wrap a)
unfolding wrap
wrap-InRange a = ground arith

pub wrap_of_InRange : (a : ℤ) → InRange a → wrap a ≡ a
unfolding wrap
wrap_of_InRange a h = ground arith

unfoldable pub ◌+int◌ : ℤ → ℤ → ℤ
a +int b = wrap (a +ℤ b)

unfoldable pub ◌-int◌ : ℤ → ℤ → ℤ
a -int b = wrap (a -ℤ b)

-- A time is the nanoseconds since the zero time.
abbrev pub Time : Type 0
Time = ℤ

abbrev pub Duration : Type 0
Duration = ℤ

abbrev pub zero_time : Time
zero_time = pos 0

unfoldable pub is_zero : Time → Bool
unfolding int_beq
is_zero t = t == pos 0

abbrev pub after : Time → Time → Bool
after a b = ltb_ℤ b a

abbrev pub before : Time → Time → Bool
before a b = ltb_ℤ a b

-- `t.Sub(u)` stays at the ends of `int64` where the difference does not fit.
unfoldable pub saturate : ℤ → ℤ
saturate a =
    if leb (2 ^ 63) (pos_part a)
    then pos (2 ^ 63 - 1)
    else if ltb (2 ^ 63) (neg_part a)
    then negsuc (2 ^ 63 - 1)
    else a

unfoldable pub sub_time : Time → Time → Duration
sub_time a b = saturate (a -ℤ b)

pub saturate_of_InRange : (a : ℤ) → InRange a → saturate a ≡ a
unfolding saturate
saturate_of_InRange a h = ground arith

abbrev pub second : Duration
second = pos 1000000000

abbrev pub hour : Duration
hour = pos 3600000000000

abbrev pub minute : Duration
minute = pos 60000000000

abbrev pub min_ℤ : ℤ → ℤ → ℤ
min_ℤ a b = if ltb_ℤ b a then b else a

abbrev pub max_ℤ : ℤ → ℤ → ℤ
max_ℤ a b = if ltb_ℤ a b then b else a

pub ruleset int_laws = (arith, +ℤ_parts, -ℤ_parts, eq_of_parts)

-- A pointer that the program has tested is read; of nil the program reads none.
abbrev pub int_at : Option ℤ → ℤ
int_at none = pos 0
int_at (some n) = n

abbrev pub bool_at : Option Bool → Bool
bool_at none = false
bool_at (some b) = b
