-- ===== src/Config/Port.antt =====
-- The numerals that `parsePort` accepts, and the round trip with `std::to_string`.
use conspire.Prelude.{
  ℕ, zero, suc, ◌+◌, ◌-◌, ◌*◌, ◌/◌, ◌%◌, ◌^◌, ◌≤◌, ◌<◌, ◌≡◌, refl, ◌↔◌, Bool-cases, inl, inr, false,
  [], ◌∷◌, ◌++◌, some, arith, ltb,
}
use conspire.Prelude.Bytes.{Bytes, All, All-append}
use conspire.Prelude.Decimal.{decimal, port_text}
use conspire.Boundaries.Text.{is_empty}
use conspire.Config.{parse_port, parse_digits}

-- A decimal digit.
abbrev pub IsDigit : ℕ → Type 0
IsDigit c = (b'0' ≤ c) × (c ≤ b'9')

-- The number that a text of digits denotes after those already read.
unfoldable pub value_after : ℕ → Bytes → ℕ
value_after read [] = read
value_after read (c ∷ cs) = value_after (read * 10 + (c - b'0')) cs

value_after-le : (read : ℕ) (text : Bytes) → read ≤ value_after read text
unfolding value_after
value_after-le read [] = omega arith
value_after-le read (c ∷ cs) = omega (arith, value_after-le (read * 10 + (c - b'0')) cs)

parse_digits_sound :
    (read : ℕ) (text : Bytes) (port : ℕ)
    → read ≤ 65535
    → parse_digits read text ≡ some port
    → (All IsDigit text × (value_after read text ≡ port)) × (port ≤ 65535)
unfolding parse_digits value_after
parse_digits_sound read [] port bound h = ground arith
parse_digits_sound read (c ∷ cs) port bound h =
    ground (arith, parse_digits_sound (read * 10 + (c - b'0')) cs port)

parse_digits_complete :
    (read : ℕ) (text : Bytes)
    → All IsDigit text
    → value_after read text ≤ 65535
    → parse_digits read text ≡ some (value_after read text)
unfolding parse_digits value_after
parse_digits_complete read [] digits bound = refl
parse_digits_complete read (c ∷ cs) digits bound = ground (
  arith,
  parse_digits_complete (read * 10 + (c - b'0')) cs digits.1 bound,
  value_after-le (read * 10 + (c - b'0')) cs,
)

-- `parsePort` returns a port exactly for a text that is not empty and has decimal digits only,
-- and whose value is that port and at most 65535.
pub parse_port_iff :
    (text : Bytes) (port : ℕ)
    → (parse_port text ≡ some port)
      ↔ ((is_empty text ≡ false) × All IsDigit text × (value_after 0 text ≡ port) × (port ≤ 65535))
unfolding parse_port is_empty
parse_port_iff [] port = ground arith
parse_port_iff (c ∷ cs) port =
    ground (arith, parse_digits_sound 0 (c ∷ cs) port, parse_digits_complete 0 (c ∷ cs))

value_after-append :
    (read : ℕ) (text : Bytes) (c : ℕ)
    → value_after read (text ++ (c ∷ [])) ≡ value_after read text * 10 + (c - b'0')
unfolding value_after
value_after-append read [] c = refl
value_after-append read (d ∷ ds) c = value_after-append (read * 10 + (d - b'0')) ds c

is_empty-append : (text : Bytes) (c : ℕ) → is_empty (text ++ (c ∷ [])) ≡ false
unfolding is_empty
is_empty-append [] c = refl
is_empty-append (d ∷ ds) c = refl

last-IsDigit : (n : ℕ) → IsDigit (b'0' + n % 10)
last-IsDigit n = (omega arith, omega arith)

value_after-decimal : (fuel n : ℕ) → n < 10 ^ fuel → value_after 0 (decimal fuel n) ≡ n
unfolding value_after decimal
value_after-decimal zero n h = omega arith
value_after-decimal (suc fuel) n h = elim (Bool-cases (ltb n 10)) [
  | inl small ↦ rw (small) (ground arith)
  | inr large ↦
      rw
        (
          large,
          value_after-append 0 (decimal fuel (n / 10)) (b'0' + n % 10),
          value_after-decimal fuel (n / 10) (omega arith),
        )
        (omega arith)
]

decimal-IsDigit : (fuel n : ℕ) → All IsDigit (decimal fuel n)
unfolding decimal
decimal-IsDigit zero n = tt
decimal-IsDigit (suc fuel) n = elim (Bool-cases (ltb n 10)) [
  | inl small ↦ rw (small) (last-IsDigit n, tt)
  | inr large ↦ rw (large) (
      All-append IsDigit (decimal fuel (n / 10)) ((b'0' + n % 10) ∷ [])
        (decimal-IsDigit fuel (n / 10)) (last-IsDigit n, tt))
]

decimal_nonempty : (fuel n : ℕ) → is_empty (decimal (suc fuel) n) ≡ false
unfolding decimal is_empty
decimal_nonempty fuel n = elim (Bool-cases (ltb n 10)) [
  | inl small ↦ rw (small)
  | inr large ↦ rw (large, is_empty-append (decimal fuel (n / 10)) (b'0' + n % 10))
]

-- The decimal text of a port is read back as that port.
pub parse_port-port_text : (port : ℕ) → port ≤ 65535 → parse_port (port_text port) ≡ some port
unfolding port_text
parse_port-port_text port h =
    (parse_port_iff (decimal 5 port) port).1
      (decimal_nonempty 4 port, decimal-IsDigit 5 port, value_after-decimal 5 port (omega arith), h)
