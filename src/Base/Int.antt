-- ===== src/Base/Int.antt =====
-- Signed integers, and the conversions between the unsigned C types of usb.h and the signed Java
-- types of jni.h.
use Prim.Native.Nat.{ℕ, ◌+◌, ◌-◌, ◌%◌, ◌^◌, ◌<◌, compare, Ordering}
use mathlib.Core.Path.{◌≡◌}
use mathlib.Core.Bool.{Bool, true, false}
use native.Mathlib.Omega.{arith}

-- `negsuc n` is -(n + 1)
pub data ℤ : Type 0 where
  pos : ℕ → ℤ
  negsuc : ℕ → ℤ

-- The C idiom `x > 0`.
abbrev pub is_pos : ℤ → Bool
is_pos (pos n) = elim (compare 0 n) [ Ordering.lt ↦ true | _ ↦ false ]
is_pos (negsuc _) = false

-- The rounds of `for (i = 0; i < n; i++)`.
abbrev pub rounds : ℤ → ℕ
rounds (pos n) = n
rounds (negsuc _) = 0

abbrev pub eq_ℤ : ℤ → ℤ → Bool
eq_ℤ (pos a) (pos b) = elim (compare a b) [ Ordering.eq ↦ true | _ ↦ false ]
eq_ℤ (negsuc a) (negsuc b) = elim (compare a b) [ Ordering.eq ↦ true | _ ↦ false ]
eq_ℤ _ _ = false

-- An unsigned word below `2 * half`, read as a signed one of the same width.
abbrev pub signed : ℕ → ℕ → ℤ
signed half x = elim (compare x half) [ Ordering.lt ↦ pos x | _ ↦ negsuc (half + half - 1 - x) ]

-- The bit pattern of a signed number in a word of `modulus` values.
abbrev pub unsigned : ℕ → ℤ → ℕ
unsigned modulus (pos n) = n % modulus
unsigned modulus (negsuc n) = modulus - 1 - n % modulus

-- (jbyte), (jshort) and (jlong) of an unsigned value, and back.
unfoldable pub to_jbyte : ℕ → ℤ
to_jbyte x = signed (2 ^ 7) (x % 2 ^ 8)

unfoldable pub to_jshort : ℕ → ℤ
to_jshort x = signed (2 ^ 15) (x % 2 ^ 16)

unfoldable pub to_jlong : ℕ → ℤ
to_jlong x = signed (2 ^ 63) (x % 2 ^ 64)

unfoldable pub of_jbyte : ℤ → ℕ
of_jbyte = unsigned (2 ^ 8)

unfoldable pub of_jshort : ℤ → ℕ
of_jshort = unsigned (2 ^ 16)

unfoldable pub of_jlong : ℤ → ℕ
of_jlong = unsigned (2 ^ 64)

-- (unsigned) of a jint or, sign-extended, of a jbyte.
unfoldable pub of_jint : ℤ → ℕ
of_jint = unsigned (2 ^ 32)

pub of_jbyte-to_jbyte : (x : ℕ) → x < 2 ^ 8 → of_jbyte (to_jbyte x) ≡ x
unfolding to_jbyte of_jbyte
of_jbyte-to_jbyte x h = ground arith

pub of_jshort-to_jshort : (x : ℕ) → x < 2 ^ 16 → of_jshort (to_jshort x) ≡ x
unfolding to_jshort of_jshort
of_jshort-to_jshort x h = ground arith

pub of_jlong-to_jlong : (x : ℕ) → x < 2 ^ 64 → of_jlong (to_jlong x) ≡ x
unfolding to_jlong of_jlong
of_jlong-to_jlong x h = ground arith

-- The detour over `unsigned` keeps the low byte.
pub of_jint-mod-of_jbyte : (b : ℤ) → of_jint b % 2 ^ 8 ≡ of_jbyte b
unfolding of_jint of_jbyte
of_jint-mod-of_jbyte (pos n) = omega arith
of_jint-mod-of_jbyte (negsuc n) = omega arith

pub eq_ℤ-refl : (a : ℤ) → eq_ℤ a a ≡ true
eq_ℤ-refl (pos a) = ground arith
eq_ℤ-refl (negsuc a) = ground arith

pub eq_ℤ-eq : (a b : ℤ) → eq_ℤ a b ≡ true → a ≡ b
eq_ℤ-eq (pos a) (pos b) h = ground arith
eq_ℤ-eq (pos a) (negsuc b) h = ground arith
eq_ℤ-eq (negsuc a) (pos b) h = ground arith
eq_ℤ-eq (negsuc a) (negsuc b) h = ground arith
