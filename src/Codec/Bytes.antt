-- ===== src/Codec/Bytes.antt =====
-- Reads of a fixed number of bytes (`Read::read_exact`, `ReadExt::read_u8`) and `String::from_utf8`.
use lrc.Common.{
  ℕ, zero, suc, ◌-◌, ◌≡◌, refl, List, [], ◌∷◌, ◌++◌, Bool, true, false, Option, none, some, arith,
  append-nil, length, length-append, take, drop, replicate, take-append, drop-append, ltb, leb,
  ◌&&◌, if◌then◌else◌, ◌==◌,
}
use lrc.Outcome.{ok, err}
use lrc.Codec.{Reader}

-- The first `n` bytes and the rest, if there are so many.
pub split_at? : ℕ → List ℕ → Option (List ℕ × List ℕ)
split_at? zero bs = some ([], bs)
split_at? (suc n) [] = none
split_at? (suc n) (b ∷ bs) = elim (split_at? n bs) [
  | none ↦ none
  | some (front, back) ↦ some (b ∷ front, back)
]

unfoldable pub read_exact : {E : Type 0} → E → ℕ → Reader E (List ℕ)
unfolding split_at?
read_exact e n bs = elim (split_at? n bs) [ none ↦ err e | some p ↦ ok p ]

unfoldable pub read_u8 : {E : Type 0} → E → Reader E ℕ
read_u8 e [] = err e
read_u8 e (b ∷ bs) = ok (b, bs)

split_at?-append : (xs ys : List ℕ) → split_at? (length xs) (xs ++ ys) ≡ some (xs, ys)
unfolding split_at?
split_at?-append [] ys = refl
split_at?-append (x ∷ xs) ys = rw (split_at?-append xs ys)

-- `Read::read` on a cursor: it fills the buffer as far as the bytes go.
unfoldable pub read : {E : Type 0} → ℕ → Reader E (List ℕ)
read n bs = ok (take n bs ++ replicate (n - length bs) 0, drop n bs)

pub read-append :
    {E : Type 0} (n : ℕ) (xs ys : List ℕ) → length xs ≡ n → read {E = E} n (xs ++ ys) ≡ ok (xs, ys)
unfolding read
read-append n xs ys h =
    rw (take-append n xs ys h, drop-append n xs ys h, none_missing, append-nil xs)
  where
    fits : n - length (xs ++ ys) ≡ 0
    fits = omega (arith, length-append xs ys)

    none_missing : replicate {A = ℕ} (n - length (xs ++ ys)) 0 ≡ []
    none_missing = rw fits

pub read_exact-append :
    {E : Type 0} (e : E) (n : ℕ) (xs ys : List ℕ)
    → length xs ≡ n
    → read_exact e n (xs ++ ys) ≡ ok (xs, ys)
unfolding read_exact
read_exact-append e n xs ys h = rw (← h) (rw (split_at?-append xs ys, read_exact))

-- The shape of UTF-8: how many bytes of a character are still to come, and the bounds of the next.
record Utf8State : Type 0 where
  need : ℕ
  lo : ℕ
  hi : ℕ

abbrev start : Utf8State
start = record { need = 0; lo = 0; hi = 0 }

abbrev tail_state : ℕ → Utf8State
tail_state n = record { need = n; lo = 0x80; hi = 0xbf }

lead : ℕ → Option Utf8State
lead b =
    if ltb b 0x80
    then some start
    else if ltb b 0xc2
    then none
    else if ltb b 0xe0
    then some (tail_state 1)
    else if b == 0xe0
    then some (record { need = 2; lo = 0xa0; hi = 0xbf })
    else if b == 0xed
    then some (record { need = 2; lo = 0x80; hi = 0x9f })
    else if ltb b 0xf0
    then some (tail_state 2)
    else if b == 0xf0
    then some (record { need = 3; lo = 0x90; hi = 0xbf })
    else if ltb b 0xf4
    then some (tail_state 3)
    else if b == 0xf4
    then some (record { need = 3; lo = 0x80; hi = 0x8f })
    else none

utf8_step : Utf8State → ℕ → Option Utf8State
unfolding lead
utf8_step s b =
    if s.need == 0
    then lead b
    else if leb s.lo b && leb b s.hi
    then some (tail_state (s.need - 1))
    else none

utf8_from : Utf8State → List ℕ → Bool
utf8_from s [] = s.need == 0
utf8_from s (b ∷ bs) = elim (utf8_step s b) [ none ↦ false | some s' ↦ utf8_from s' bs ]

-- A Rust `String` is its bytes; `String::from_utf8` accepts exactly these.
unfoldable pub is_utf8 : List ℕ → Bool
unfolding utf8_from utf8_step
is_utf8 bs = utf8_from start bs

is_utf8_ascii : is_utf8 (b'B' ∷ b'T' ∷ b'C' ∷ []) ≡ true
unfolding is_utf8
is_utf8_ascii = refl

is_utf8_truncated : is_utf8 (0xe2 ∷ 0x82 ∷ []) ≡ false
unfolding is_utf8
is_utf8_truncated = refl

is_utf8_euro : is_utf8 (0xe2 ∷ 0x82 ∷ 0xac ∷ []) ≡ true
unfolding is_utf8
is_utf8_euro = refl
