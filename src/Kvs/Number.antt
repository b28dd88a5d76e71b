-- ===== src/Kvs/Number.antt =====
-- strconv.FormatInt and strconv.ParseInt at base 10 and 64 bits, as internal/kvs/store.go uses them.
use link_raft.Prelude.{
  ℕ, zero, suc, ◌+◌, ◌-◌, ◌*◌, ◌/◌, ◌%◌, ◌≤◌, ◌<◌, ◌≡◌, refl, Str, Bool, true, ◌&&◌, Option, none,
  some, [], ◌∷◌, ltb, leb, ◌==◌, if◌then◌else◌, arith, Bool-cases, inl, inr, ◌∙◌, ap, ltb→lt,
  ltb→le,
}
use link_raft.Prelude.Int.{ℤ, pos, negsuc, max_int64, IsInt64}

-- The digits of `n` in front of `acc`. A number below the fuel has fewer digits than that.
unfoldable pub format_digits : ℕ → ℕ → Str → Str
format_digits zero n acc = acc
format_digits (suc fuel) n acc =
    let d = b'0' + n % 10 in
    let more = format_digits fuel (n / 10) (d ∷ acc) in if ltb n 10 then d ∷ acc else more

unfoldable pub format_int : ℤ → Str
unfolding format_digits
format_int (pos n) = format_digits (suc n) n []
format_int (negsuc n) = b'-' ∷ format_digits (suc (suc n)) (suc n) []

is_digit : ℕ → Bool
is_digit c = leb b'0' c && leb c b'9'

-- The value of the digits behind those that made `acc`.
parse_digits : ℕ → Str → Option ℕ
unfolding is_digit
parse_digits acc [] = some acc
parse_digits acc (c ∷ s) =
    let rest = parse_digits (acc * 10 + (c - b'0')) s in if is_digit c then rest else none

-- A sign, then at least one digit.
parse_unsigned : Str → Option ℕ
unfolding parse_digits
parse_unsigned [] = none
parse_unsigned (c ∷ s) = parse_digits 0 (c ∷ s)

in_range_pos : Option ℕ → Option ℤ
in_range_pos none = none
in_range_pos (some n) = if leb n max_int64 then some (pos n) else none

in_range_neg : Option ℕ → Option ℤ
in_range_neg none = none
in_range_neg (some zero) = some (pos 0)
in_range_neg (some (suc n)) = if leb n max_int64 then some (negsuc n) else none

-- The value, or `none` for a syntax or range error.
unfoldable pub parse_int : Str → Option ℤ
unfolding parse_unsigned in_range_pos in_range_neg
parse_int [] = none
parse_int (c ∷ s) =
    if c == b'-'
    then in_range_neg (parse_unsigned s)
    else if c == b'+'
    then in_range_pos (parse_unsigned s)
    else in_range_pos (parse_unsigned (c ∷ s))

digit-is_digit : (n : ℕ) → is_digit (b'0' + n % 10) ≡ true
unfolding is_digit
digit-is_digit n = ground arith

parse_digit :
    (m n : ℕ) (acc : Str)
    → m * 10 + n % 10 ≡ n
    → parse_digits m ((b'0' + n % 10) ∷ acc) ≡ parse_digits n acc
unfolding parse_digits
parse_digit m n acc h = rw (digit-is_digit n) (ap (λ k. parse_digits k acc) (omega arith))

-- Reading back the digits that are put in front of `acc`.
parse-format_digits :
    (fuel n : ℕ) (acc : Str)
    → n < fuel
    → parse_digits 0 (format_digits fuel n acc) ≡ parse_digits n acc
unfolding format_digits parse_digits
parse-format_digits zero n acc h = absurd (omega arith)
parse-format_digits (suc f) n acc h = elim (Bool-cases (ltb n 10)) [
  | inl one ↦ rw (one, format_digits) (parse_digit 0 n acc (omega (arith, ltb→lt n 10 one)))
  | inr more ↦
      rw (more, format_digits)
        (parse-format_digits f (n / 10) ((b'0' + n % 10) ∷ acc) (omega (arith, ltb→le n 10 more))
          ∙ parse_digit (n / 10) n acc (omega arith))
]

-- What is written begins with a digit.
format_digits-cons :
    (fuel n : ℕ) (acc : Str)
    → n < fuel
    → (c : ℕ) × (s : Str) × (format_digits fuel n acc ≡ c ∷ s) × (is_digit c ≡ true)
unfolding format_digits
format_digits-cons zero n acc h = absurd (omega arith)
format_digits-cons (suc f) n acc h = elim (Bool-cases (ltb n 10)) [
  | inl one ↦ (b'0' + n % 10, acc, rw (one, format_digits), digit-is_digit n)
  | inr more ↦
      let (c, s, e, d) =
        format_digits-cons f (n / 10) ((b'0' + n % 10) ∷ acc) (omega (arith, ltb→le n 10 more)) in
      (c, s, rw (more, format_digits) e, d)
]

parse_unsigned-format : (fuel n : ℕ) → n < fuel → parse_unsigned (format_digits fuel n []) ≡ some n
unfolding parse_unsigned
parse_unsigned-format fuel n h =
    let (c, s, e, d) = format_digits-cons fuel n [] h in
    rw e (rw e at (parse-format_digits fuel n [] h))

parse_int-digit :
    (c : ℕ) (s : Str)
    → is_digit c ≡ true
    → parse_int (c ∷ s) ≡ in_range_pos (parse_unsigned (c ∷ s))
unfolding parse_int is_digit
parse_int-digit c s d = ground arith

format_int-pos : (n : ℕ) → format_int (pos n) ≡ format_digits (suc n) n []
unfolding format_int
format_int-pos n = refl

format_int-negsuc : (n : ℕ) → format_int (negsuc n) ≡ b'-' ∷ format_digits (suc (suc n)) (suc n) []
unfolding format_int
format_int-negsuc n = refl

parse_int-minus : (s : Str) → parse_int (b'-' ∷ s) ≡ in_range_neg (parse_unsigned s)
unfolding parse_int
parse_int-minus s = refl

in_range_pos-some : (n : ℕ) → n ≤ max_int64 → in_range_pos (some n) ≡ some (pos n)
unfolding in_range_pos
in_range_pos-some n h = ground arith

in_range_neg-some : (n : ℕ) → n ≤ max_int64 → in_range_neg (some (suc n)) ≡ some (negsuc n)
unfolding in_range_neg
in_range_neg-some n h = ground arith

-- Every int64 is read back from its decimal form.
pub parse_int-format_int : (z : ℤ) → IsInt64 z → parse_int (format_int z) ≡ some z
parse_int-format_int (pos n) h =
    let (c, s, e, d) = format_digits-cons (suc n) n [] (omega arith) in
    rw (format_int-pos, e)
      (parse_int-digit c s d
        ∙ ap in_range_pos (rw e at (parse_unsigned-format (suc n) n (omega arith)))
        ∙ in_range_pos-some n h)
parse_int-format_int (negsuc n) h =
    rw
      (
        format_int-negsuc,
        parse_int-minus,
        parse_unsigned-format (suc (suc n)) (suc n) (omega arith),
      )
      (in_range_neg-some n h)

IsInt64-in_range_pos : (o : Option ℕ) (z : ℤ) → in_range_pos o ≡ some z → IsInt64 z
unfolding in_range_pos
IsInt64-in_range_pos none z h = cc
IsInt64-in_range_pos (some n) (pos k) h = ground arith
IsInt64-in_range_pos (some n) (negsuc k) h = ground arith

IsInt64-in_range_neg : (o : Option ℕ) (z : ℤ) → in_range_neg o ≡ some z → IsInt64 z
unfolding in_range_neg
IsInt64-in_range_neg none z h = cc
IsInt64-in_range_neg (some zero) (pos k) h = ground arith
IsInt64-in_range_neg (some zero) (negsuc k) h = cc
IsInt64-in_range_neg (some (suc n)) (pos k) h = ground arith
IsInt64-in_range_neg (some (suc n)) (negsuc k) h = ground arith

-- What is read is an int64.
pub IsInt64-parse_int : (s : Str) (z : ℤ) → parse_int s ≡ some z → IsInt64 z
unfolding parse_int
IsInt64-parse_int [] z h = cc
IsInt64-parse_int (c ∷ s) z h = elim (Bool-cases (c == b'-')) [
  | inl minus ↦ IsInt64-in_range_neg (parse_unsigned s) z (rw minus at h)
  | inr plain ↦ elim (Bool-cases (c == b'+')) [
    | inl plus ↦ IsInt64-in_range_pos (parse_unsigned s) z (rw plus at (rw plain at h))
    | inr digit ↦ IsInt64-in_range_pos (parse_unsigned (c ∷ s)) z (rw digit at (rw plain at h))
  ]
]
