-- ===== src/Base/Text.antt =====
-- Go strings as lists of bytes: equality, the order of `<`, and the decimal forms that `%d`
-- prints and that `strconv.Atoi` and `strconv.ParseInt(s, 10, 64)` read.
use Prim.Native.Char.{code}
use batch_release.Base.{
  ℕ, zero, suc, ◌+◌, ◌-◌, ◌*◌, ◌/◌, ◌%◌, ◌^◌, ◌≤◌, ◌<◌, String, ◌≡◌, refl, ap, ◌↔◌, inl, inr, Bool,
  true, false, ◌&&◌, Option, none, some, List, [], ◌∷◌, arith, ltb, leb, ◌==◌, if◌then◌else◌,
  Bool-cases,
}
use batch_release.Base.Int.{ℤ, pos, negsuc, sub_ℕ, pos_part, neg_part}

abbrev pub Text : Type 0
Text = List ℕ

abbrev pub codes : String → Text
codes String.[] = []
codes (String.◌∷◌ c s) = code c ∷ codes s

unfoldable pub text_eq : Text → Text → Bool
text_eq [] [] = true
text_eq [] (d ∷ t) = false
text_eq (c ∷ s) [] = false
text_eq (c ∷ s) (d ∷ t) = (c == d) && text_eq s t

pub text_eq→eq : (s t : Text) → text_eq s t ≡ true → s ≡ t
unfolding text_eq
text_eq→eq [] [] h = refl
text_eq→eq [] (d ∷ t) h = ground arith
text_eq→eq (c ∷ s) [] h = ground arith
text_eq→eq (c ∷ s) (d ∷ t) h = ground (arith, text_eq→eq s t)

pub text_eq_refl : (s : Text) → text_eq s s ≡ true
unfolding text_eq
text_eq_refl [] = refl
text_eq_refl (c ∷ s) = ground (arith, text_eq_refl s)

pub text_eq_iff : (s t : Text) → (text_eq s t ≡ true) ↔ (s ≡ t)
text_eq_iff s t = (text_eq→eq s t, λ e. rw e (text_eq_refl t))

-- `s < t`, byte by byte.
unfoldable pub text_lt : Text → Text → Bool
text_lt s [] = false
text_lt [] (d ∷ t) = true
text_lt (c ∷ s) (d ∷ t) = let rest = text_lt s t in if c == d then rest else ltb c d

-- The decimal digits of `n`, in front of `acc`.
digits_from : ℕ → ℕ → Text → Text
digits_from zero n acc = acc
digits_from (suc fuel) n acc =
    let shown = (b'0' + n % 10) ∷ acc in
    let rest = digits_from fuel (n / 10) shown in if n / 10 == 0 then shown else rest

-- fmt.Sprintf("%d", z), strconv.FormatInt(z, 10)
unfoldable pub print_int : ℤ → Text
unfolding digits_from
print_int (pos n) = digits_from (suc n) n []
print_int (negsuc n) = b'-' ∷ digits_from (suc (suc n)) (suc n) []

parse_digits : ℕ → Text → Option ℕ
parse_digits acc [] = some acc
parse_digits acc (c ∷ s) =
    let rest = parse_digits (acc * 10 + (c - b'0')) s in
    if leb b'0' c && leb c b'9' then rest else none

-- The magnitudes that fit an int64 under their sign.
in_range : Bool → ℕ → Option ℤ
in_range false n = if ltb n (2 ^ 63) then some (pos n) else none
in_range true n = if leb n (2 ^ 63) then some (sub_ℕ 0 n) else none

parse_magnitude : Bool → Text → Option ℤ
unfolding parse_digits in_range
parse_magnitude negative [] = none
parse_magnitude negative (c ∷ s) = elim (parse_digits 0 (c ∷ s)) [
  | none ↦ none
  | some n ↦ in_range negative n
]

-- strconv.Atoi where int has 64 bits; `none` stands for its error.
unfoldable pub parse_int : Text → Option ℤ
unfolding parse_magnitude
parse_int [] = none
parse_int (c ∷ s) =
    if c == b'-'
    then parse_magnitude true s
    else if c == b'+'
    then parse_magnitude false s
    else parse_magnitude false (c ∷ s)

digits_head :
    (fuel n : ℕ) (acc : Text)
    → (c : ℕ) × (s : Text) × (digits_from (suc fuel) n acc ≡ c ∷ s) × (b'0' ≤ c)
unfolding digits_from
digits_head zero n acc = (b'0' + n % 10, acc, ground arith, omega arith)
digits_head (suc fuel) n acc = elim (Bool-cases (n / 10 == 0)) [
  | inl last ↦ (b'0' + n % 10, acc, ground arith, omega arith)
  | inr more ↦
      let (c, s, e, h) = digits_head fuel (n / 10) ((b'0' + n % 10) ∷ acc) in
      (c, s, ground arith, h)
]

parse_digit :
    (a n : ℕ) (acc : Text)
    → parse_digits a ((b'0' + n % 10) ∷ acc) ≡ parse_digits (a * 10 + n % 10) acc
unfolding parse_digits
parse_digit a n acc = rw (let e : b'0' + n % 10 - b'0' ≡ n % 10 = omega arith in e) (ground arith)

parse-digits :
    (fuel n : ℕ) (acc : Text)
    → n < fuel
    → parse_digits 0 (digits_from fuel n acc) ≡ parse_digits n acc
unfolding digits_from
parse-digits zero n acc h = elim h [ ]
parse-digits (suc fuel) n acc h = elim (Bool-cases (n / 10 == 0)) [
  | inl last ↦
      let e : 0 * 10 + n % 10 ≡ n = ground arith in
      ground (arith, parse_digit 0 n acc, ap (λ (k : ℕ). parse_digits k acc) e)
  | inr more ↦
      let shown : Text = (b'0' + n % 10) ∷ acc in
      let e : n / 10 * 10 + n % 10 ≡ n = omega arith in
      ground (
        arith,
        parse-digits fuel (n / 10) shown,
        parse_digit (n / 10) n acc,
        ap (λ (k : ℕ). parse_digits k acc) e,
      )
]

-- A digit string reads back, under either sign.
parse_magnitude-digits :
    (negative : Bool) (n : ℕ)
    → parse_magnitude negative (digits_from (suc n) n []) ≡ in_range negative n
unfolding parse_magnitude
parse_magnitude-digits negative n =
    let (c, s, e, h) = digits_head n n [] in
    let back : parse_digits 0 (digits_from (suc n) n []) ≡ some n =
      unfold parse_digits in parse-digits (suc n) n [] (omega arith) in
    ground (arith, e, back)

-- What `%d` prints of an int64 reads back as the same number.
pub parse-print :
    (z : ℤ) → pos_part z < 2 ^ 63 → neg_part z ≤ 2 ^ 63 → parse_int (print_int z) ≡ some z
unfolding parse_int print_int in_range
parse-print (pos n) u l =
    let (c, s, e, h) = digits_head n n [] in
    let back = parse_magnitude-digits false n in ground (arith, e, h, back)
parse-print (negsuc n) u l = ground (arith, parse_magnitude-digits true (suc n))
