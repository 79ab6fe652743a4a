-- ===== src/Prelude/Strings.antt =====
-- Strings as lists of characters, with `std::string::operator==`.
use Prim.Native.Nat.{ℕ}
use mathlib.Core.Path.{◌≡◌, refl}
use mathlib.Core.Bool.{Bool, true, false, ◌&&◌, ◌||◌}
use mathlib.Core.List.{List, [], ◌∷◌}
use native.Mathlib.Omega.{arith}
use thread_and_net.Prelude.Tests.{◌==◌, ltb}

abbrev pub eq_string : List ℕ → List ℕ → Bool
eq_string [] [] = true
eq_string (a ∷ as₁) (b ∷ bs) = (a == b) && eq_string as₁ bs
eq_string _ _ = false

pub eq_string-eq : (a b : List ℕ) → eq_string a b ≡ true → a ≡ b
eq_string-eq [] [] h = refl
eq_string-eq [] (y ∷ b) h = ground arith
eq_string-eq (x ∷ a) [] h = ground arith
eq_string-eq (x ∷ a) (y ∷ b) h = ground (arith, eq_string-eq a b)

pub eq_string_refl : (a : List ℕ) → eq_string a a ≡ true
eq_string_refl [] = refl
eq_string_refl (x ∷ a) = ground (arith, eq_string_refl a)

-- `std::string::operator<`, which compares characters as bytes without a sign
abbrev pub ltb_string : List ℕ → List ℕ → Bool
ltb_string [] [] = false
ltb_string [] (b ∷ bs) = true
ltb_string (a ∷ as₁) [] = false
ltb_string (a ∷ as₁) (b ∷ bs) = ltb a b || ((a == b) && ltb_string as₁ bs)

pub ltb_string_trans :
    (a b c : List ℕ) → ltb_string a b ≡ true → ltb_string b c ≡ true → ltb_string a c ≡ true
ltb_string_trans [] [] c h k = absurd (ground arith)
ltb_string_trans [] (y ∷ b) [] h k = absurd (ground arith)
ltb_string_trans [] (y ∷ b) (z ∷ c) h k = refl
ltb_string_trans (x ∷ a) [] c h k = absurd (ground arith)
ltb_string_trans (x ∷ a) (y ∷ b) [] h k = absurd (ground arith)
ltb_string_trans (x ∷ a) (y ∷ b) (z ∷ c) h k = ground (arith, ltb_string_trans a b c)

pub ltb_string_total :
    (a b : List ℕ) → ltb_string a b ≡ false → eq_string b a ≡ false → ltb_string b a ≡ true
ltb_string_total [] [] h k = absurd (ground arith)
ltb_string_total [] (y ∷ b) h k = absurd (ground arith)
ltb_string_total (x ∷ a) [] h k = refl
ltb_string_total (x ∷ a) (y ∷ b) h k = ground (arith, ltb_string_total a b)
