-- ===== src/Prelude/Bytes.antt =====
-- Texts as the program walks them: lists of bytes. Literals are ASCII.
use Prim.Native.Nat.{ℕ, zero, suc, ◌<◌}
use Prim.Native.Char.{code}
use Prim.Native.String.{String}
use mathlib.Core.Path.{◌≡◌, refl}
use mathlib.Core.Logic.{◌↔◌, ◌≢◌}
use mathlib.Core.Bool.{Bool, true, false, ◌&&◌}
use mathlib.Core.List.{List, [], ◌∷◌, ◌++◌}
use mathlib.Core.Option
use mathlib.Core.Option.{Option, none, some}
use native.Mathlib.Omega.{arith}
use conspire.Prelude.Tests.{leb, ◌==◌, ==_iff, if◌then◌else◌}
use conspire.Prelude.Maps.{Eq}

abbrev pub Bytes : Type 0
Bytes = List ℕ

abbrev pub codes : String → Bytes
codes String.[] = []
codes (String.◌∷◌ c s) = code c ∷ codes s

-- lo <= character && character <= hi
abbrev pub within : ℕ → ℕ → ℕ → Bool
within lo hi c = leb lo c && leb c hi

unfoldable pub same : Bytes → Bytes → Bool
same [] [] = true
same [] (y ∷ ys) = false
same (x ∷ xs) [] = false
same (x ∷ xs) (y ∷ ys) = (x == y) && same xs ys

pub same_iff : (xs ys : Bytes) → (same xs ys ≡ true) ↔ (xs ≡ ys)
unfolding same
same_iff [] [] = ground arith
same_iff [] (y ∷ ys) = ground arith
same_iff (x ∷ xs) [] = ground arith
same_iff (x ∷ xs) (y ∷ ys) = ground (arith, same_iff xs ys, ==_iff x y)

-- Every member satisfies `P`.
abbrev pub All {ℓ κ} : {A : Type ℓ} → (A → Type κ) → List A → Type κ
All P [] = Unit
All P (x ∷ xs) = P x × All P xs

-- Every member passes the test.
abbrev pub all_of {ℓ} : {A : Type ℓ} → (A → Bool) → List A → Bool
all_of p [] = true
all_of p (x ∷ xs) = p x && all_of p xs

instance abbrev pub bytes_eq : Eq Bytes
bytes_eq = record { beq = same; beq_iff = same_iff }

-- A text of bytes.
abbrev pub IsBytes : Bytes → Type 0
IsBytes = All (λ c. c < 256)

-- Over a small range, a test is checked at every value.
unfoldable pub all_below : ℕ → (ℕ → Bool) → Bool
all_below zero test = true
all_below (suc last) test = test last && all_below last test

pub all_below_sound :
    (limit : ℕ) (test : ℕ → Bool) (value : ℕ)
    → all_below limit test ≡ true
    → value < limit
    → test value ≡ true
unfolding all_below
all_below_sound zero test value passed inside = absurd (omega arith)
all_below_sound (suc last) test value passed inside =
    ground (all_below_sound last test value, arith)

-- The text begins with the needle.
unfoldable pub is_prefix : Bytes → Bytes → Bool
is_prefix [] text = true
is_prefix (n ∷ ns) [] = false
is_prefix (n ∷ ns) (c ∷ cs) = (n == c) && is_prefix ns cs

-- text.find(needle): the first position, `none` for npos.
unfoldable pub find : Bytes → Bytes → Option ℕ
find needle [] = if is_prefix needle [] then some 0 else none
find needle (c ∷ cs) =
    let rest = Option.map suc (find needle cs) in if is_prefix needle (c ∷ cs) then some 0 else rest

pub is_prefix-append : (needle rest : Bytes) → is_prefix needle (needle ++ rest) ≡ true
unfolding is_prefix
is_prefix-append [] rest = refl
is_prefix-append (n ∷ ns) rest = ground (arith, is_prefix-append ns rest)

-- Where `find` reports none there is no occurrence.
pub find-eq-none : (before needle after : Bytes) → find needle (before ++ (needle ++ after)) ≢ none
unfolding find is_prefix
find-eq-none [] [] [] h = ground arith
find-eq-none [] [] (c ∷ cs) h = ground arith
find-eq-none [] (n ∷ ns) after h = ground (arith, is_prefix-append (n ∷ ns) after)
find-eq-none (b ∷ bs) needle after h = ground (arith, find-eq-none bs needle after)

pub All-append {ℓ κ} :
    {A : Type ℓ} (P : A → Type κ) (xs ys : List A) → All P xs → All P ys → All P (xs ++ ys)
All-append P [] ys hx hy = hy
All-append P (x ∷ xs) ys hx hy = (hx.0, All-append P xs ys hx.1 hy)
