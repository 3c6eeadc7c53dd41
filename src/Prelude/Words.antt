-- ===== src/Prelude/Words.antt =====
-- Machine words and durations. A `std::uint64_t` is a native number below 2 ^ 64.
use Prim.Native.Nat.{ℕ, ◌+◌, ◌-◌, ◌*◌, ◌%◌, ◌^◌}

abbrev pub u64_mod : ℕ
u64_mod = 2 ^ 64

abbrev pub u64_max : ℕ
u64_max = 2 ^ 64 - 1

-- `++counter` on a `std::uint64_t`, atomic or not.
abbrev pub increment : ℕ → ℕ
increment n = (n + 1) % 2 ^ 64

-- std::chrono::seconds(n), in the nanoseconds of `steady_clock`.
abbrev pub seconds : ℕ → ℕ
seconds n = n * 1_000_000_000
