-- ===== src/Base/Int.antt =====
-- Signed integers over the native numbers, and Go's int32 as the integers that its operations
-- wrap to.
use batch_release.Base.{
  ℕ, suc, ◌+◌, ◌-◌, ◌*◌, ◌%◌, ◌^◌, ◌≤◌, ◌≡◌, refl, Bool, not, arith, ltb, leb, ◌==◌, if◌then◌else◌,
}

-- `negsuc n` is -(n + 1).
pub data ℤ : Type 0 where
  pos : ℕ → ℤ
  negsuc : ℕ → ℤ

pub ℤ_set : IsSet ℤ
ℤ_set = hlevel

abbrev pub pos_part : ℤ → ℕ
pos_part (pos n) = n
pos_part (negsuc n) = 0

abbrev pub neg_part : ℤ → ℕ
neg_part (pos n) = 0
neg_part (negsuc n) = suc n

abbrev pub sub_ℕ : ℕ → ℕ → ℤ
sub_ℕ a b = if leb b a then pos (a - b) else negsuc (b - a - 1)

infixl 65 ◌+ℤ◌ ◌-ℤ◌
infixl 70 ◌*ℤ◌
infix 50 ◌≤ℤ◌ ◌<ℤ◌
unfoldable pub ◌+ℤ◌ : ℤ → ℤ → ℤ
a +ℤ b = sub_ℕ (pos_part a + pos_part b) (neg_part a + neg_part b)

unfoldable pub ◌-ℤ◌ : ℤ → ℤ → ℤ
a -ℤ b = sub_ℕ (pos_part a + neg_part b) (neg_part a + pos_part b)

unfoldable pub ◌*ℤ◌ : ℤ → ℤ → ℤ
a *ℤ b =
    sub_ℕ (pos_part a * pos_part b + neg_part a * neg_part b)
      (pos_part a * neg_part b + neg_part a * pos_part b)

abbrev pub ◌≤ℤ◌ : ℤ → ℤ → Type 0
a ≤ℤ b = pos_part a + neg_part b ≤ pos_part b + neg_part a

abbrev pub ◌<ℤ◌ : ℤ → ℤ → Type 0
a <ℤ b = suc (pos_part a + neg_part b) ≤ pos_part b + neg_part a

abbrev pub ltb_ℤ : ℤ → ℤ → Bool
ltb_ℤ a b = ltb (pos_part a + neg_part b) (pos_part b + neg_part a)

abbrev pub leb_ℤ : ℤ → ℤ → Bool
leb_ℤ a b = leb (pos_part a + neg_part b) (pos_part b + neg_part a)

abbrev pub eqb_ℤ : ℤ → ℤ → Bool
eqb_ℤ a b = (pos_part a + neg_part b) == (pos_part b + neg_part a)

-- With these `omega` works with the operations shut.
pub +ℤ_parts :
    (a b : ℤ)
    → pos_part (a +ℤ b) + neg_part a + neg_part b ≡ neg_part (a +ℤ b) + pos_part a + pos_part b
unfolding ◌+ℤ◌
+ℤ_parts a b = ground arith

pub -ℤ_parts :
    (a b : ℤ)
    → pos_part (a -ℤ b) + neg_part a + pos_part b ≡ neg_part (a -ℤ b) + pos_part a + neg_part b
unfolding ◌-ℤ◌
-ℤ_parts a b = ground arith

pub eq_of_parts : (a b : ℤ) → pos_part a + neg_part b ≡ pos_part b + neg_part a → a ≡ b
eq_of_parts a b h = ground arith

-- What a conversion to int32 keeps of an integer: its low 32 bits, read as signed.
unfoldable pub to_int32 : ℤ → ℤ
to_int32 (pos n) = let m = n % 2 ^ 32 in if ltb m (2 ^ 31) then pos m else negsuc (2 ^ 32 - 1 - m)
to_int32 (negsuc n) =
    let m = n % 2 ^ 32 in if ltb m (2 ^ 31) then negsuc m else pos (2 ^ 32 - 1 - m)

-- The same for int64.
unfoldable pub to_int64 : ℤ → ℤ
to_int64 (pos n) = let m = n % 2 ^ 64 in if ltb m (2 ^ 63) then pos m else negsuc (2 ^ 64 - 1 - m)
to_int64 (negsuc n) =
    let m = n % 2 ^ 64 in if ltb m (2 ^ 63) then negsuc m else pos (2 ^ 64 - 1 - m)

abbrev pub min_int32 : ℤ
min_int32 = negsuc 2147483647

abbrev pub max_int32 : ℤ
max_int32 = pos 2147483647

pub record IsInt32 (a : ℤ) : Type 0 where
  pub lower : min_int32 ≤ℤ a
  pub upper : a ≤ℤ max_int32

pub to_int32_range : (a : ℤ) → IsInt32 (to_int32 a)
unfolding to_int32
to_int32_range (pos n) = ground arith
to_int32_range (negsuc n) = ground arith

pub to_int32_exact : (a : ℤ) → IsInt32 a → to_int32 a ≡ a
unfolding to_int32
to_int32_exact (pos n) h = ground arith
to_int32_exact (negsuc n) h = ground arith

-- Go's `a + b`, `a - b`, `-a` and `a * b` on int32.
unfoldable pub add32 : ℤ → ℤ → ℤ
add32 a b = to_int32 (a +ℤ b)

unfoldable pub sub32 : ℤ → ℤ → ℤ
sub32 a b = to_int32 (a -ℤ b)

unfoldable pub neg32 : ℤ → ℤ
neg32 a = to_int32 (pos 0 -ℤ a)

unfoldable pub mul32 : ℤ → ℤ → ℤ
mul32 a b = to_int32 (a *ℤ b)

-- Where the true result is an int32, the operation gives it.
pub add32_exact : (a b : ℤ) → IsInt32 (a +ℤ b) → add32 a b ≡ a +ℤ b
unfolding add32
add32_exact a b h = to_int32_exact (a +ℤ b) h

pub sub32_exact : (a b : ℤ) → IsInt32 (a -ℤ b) → sub32 a b ≡ a -ℤ b
unfolding sub32
sub32_exact a b h = to_int32_exact (a -ℤ b) h

pub neg32_exact : (a : ℤ) → IsInt32 (pos 0 -ℤ a) → neg32 a ≡ pos 0 -ℤ a
unfolding neg32
neg32_exact a h = to_int32_exact (pos 0 -ℤ a) h

-- The same, through the parts.
pub add32_parts :
    (a b : ℤ)
    → pos_part a + pos_part b ≤ neg_part a + neg_part b + 2147483647
    → neg_part a + neg_part b ≤ pos_part a + pos_part b + 2147483648
    → pos_part (add32 a b) + neg_part a + neg_part b
      ≡ neg_part (add32 a b) + pos_part a + pos_part b
add32_parts a b u l = rw (add32_exact a b (omega (arith, +ℤ_parts a b))) (+ℤ_parts a b)

pub sub32_parts :
    (a b : ℤ)
    → pos_part a + neg_part b ≤ neg_part a + pos_part b + 2147483647
    → neg_part a + pos_part b ≤ pos_part a + neg_part b + 2147483648
    → pos_part (sub32 a b) + neg_part a + pos_part b
      ≡ neg_part (sub32 a b) + pos_part a + neg_part b
sub32_parts a b u l = rw (sub32_exact a b (omega (arith, -ℤ_parts a b))) (-ℤ_parts a b)

pub neg32_parts :
    (a : ℤ)
    → neg_part a ≤ pos_part a + 2147483647
    → pos_part a ≤ neg_part a + 2147483648
    → pos_part (neg32 a) + pos_part a ≡ neg_part (neg32 a) + neg_part a
neg32_parts a u l =
    let e = -ℤ_parts (pos 0) a in rw (neg32_exact a (omega (arith, e))) (omega (arith, e))

pub to_int32_parts :
    (a : ℤ)
    → pos_part a ≤ neg_part a + 2147483647
    → neg_part a ≤ pos_part a + 2147483648
    → pos_part (to_int32 a) + neg_part a ≡ neg_part (to_int32 a) + pos_part a
to_int32_parts a u l = rw (to_int32_exact a (omega arith)) (omega arith)

pub ruleset int_laws =
    (arith, to_int32_parts, +ℤ_parts, -ℤ_parts, eq_of_parts, add32_parts, sub32_parts, neg32_parts)
