-- ===== src/Prelude/Decimal.antt =====
-- Decimal numerals of small numbers (`std::to_string`).
use Prim.Native.Nat.{ℕ, zero, suc, ◌+◌, ◌/◌, ◌%◌}
use mathlib.Core.List.{[], ◌∷◌, ◌++◌}
use conspire.Prelude.Tests.{ltb, if◌then◌else◌}
use conspire.Prelude.Bytes.{Bytes}

-- The numeral of a number of at most `fuel` digits.
unfoldable pub decimal : ℕ → ℕ → Bytes
decimal zero n = []
decimal (suc fuel) n =
    let leading = decimal fuel (n / 10) in
    (if ltb n 10 then [] else leading) ++ ((b'0' + n % 10) ∷ [])

-- A `std::uint16_t` has at most five digits.
unfoldable pub port_text : ℕ → Bytes
unfolding decimal
port_text port = decimal 5 port
