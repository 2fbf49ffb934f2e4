-- ===== src/Prelude/Unicode.antt =====
-- What the program uses of Rust's `char`: its UTF-8 length and its ASCII and Unicode classes. A
-- character is its code point.
use Prim.Native.Nat.{ℕ, ◌+◌, ◌<◌}
use mathlib.Core.Path.{◌≡◌}
use mathlib.Core.Bool.{Bool, ◌&&◌, ◌||◌}
use mathlib.Core.List.{[], ◌∷◌, ◌++◌}
use native.Mathlib.Omega.{arith}
use circuitc.Prelude.Tests.{ltb, leb, ◌==◌, if◌then◌else◌}
use circuitc.Prelude.Lists.{Text}

-- `len_utf8`
unfoldable pub len_utf8 : ℕ → ℕ
len_utf8 c = if ltb c 0x80 then 1 else if ltb c 0x800 then 2 else if ltb c 0x10000 then 3 else 4

-- `str::len`, in bytes
abbrev pub byte_len : Text → ℕ
byte_len [] = 0
byte_len (c ∷ cs) = len_utf8 c + byte_len cs

abbrev pub within : ℕ → ℕ → ℕ → Bool
within lo hi c = leb lo c && leb c hi

abbrev pub is_ascii_digit : ℕ → Bool
is_ascii_digit = within b'0' b'9'

abbrev pub is_ascii_alphabetic : ℕ → Bool
is_ascii_alphabetic c = within b'a' b'z' c || within b'A' b'Z' c

-- The general category Cc.
abbrev pub is_control : ℕ → Bool
is_control c = leb c 0x1f || within 0x7f 0x9f c

-- The property White_Space.
abbrev pub is_whitespace : ℕ → Bool
is_whitespace c =
    within 0x09 0x0d c
    || c == 0x20
    || c == 0x85
    || c == 0xa0
    || c == 0x1680
    || within 0x2000 0x200a c
    || c == 0x2028
    || c == 0x2029
    || c == 0x202f
    || c == 0x205f
    || c == 0x3000

pub len_utf8-pos : (c : ℕ) → 0 < len_utf8 c
unfolding len_utf8
len_utf8-pos c = ground arith

pub byte_len-append : (xs ys : Text) → byte_len (xs ++ ys) ≡ byte_len xs + byte_len ys
byte_len-append [] ys = omega arith
byte_len-append (x ∷ xs) ys = omega (arith, byte_len-append xs ys)
