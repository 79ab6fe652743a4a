-- ===== src/Atomic/Count.antt =====
-- A counter that is counted up.
use thread_and_net.Prelude.{
  ℕ, zero, suc, ◌+◌, ◌*◌, ◌%◌, ◌^◌, ◌<◌, ◌≡◌, refl, ap, ◌∙◌, List, [], ◌∷◌, arith, none, some,
  Option,
}
use native.Mathlib.Nat.{mod-eq_of_lt}
use thread_and_net.Atomic.{
  AtomicInteger, init, get_and_add, add_signed, add_and_get, increment_and_get, increments,
}

-- The `n` numbers from `lo` on
abbrev pub upto : ℕ → ℕ → List ℕ
upto lo zero = []
upto lo (suc n) = lo ∷ upto (lo + 1) n

increment-below :
    (w : ℕ) (a : AtomicInteger)
    → a.value + 1 < 2 ^ w
    → increment_and_get w a ≡ some (a.value + 1, record { value = a.value + 1 })
unfolding increment_and_get add_and_get get_and_add add_signed
increment-below w a h =
    let no_wrap : (a.value + 1) % (2 * 2 ^ w) ≡ a.value + 1 = mod-eq_of_lt (omega arith) in
    ground arith

increment-overflow :
    (w : ℕ) (a : AtomicInteger) → a.value + 1 ≡ 2 ^ w → 1 < 2 ^ w → increment_and_get w a ≡ none
unfolding increment_and_get add_and_get get_and_add add_signed
increment-overflow w a h large =
    let no_wrap : (a.value + 1) % (2 * 2 ^ w) ≡ a.value + 1 = mod-eq_of_lt (omega arith) in
    ground arith

increments-upto :
    (w n : ℕ) (a : AtomicInteger)
    → a.value + n < 2 ^ w
    → increments w n a ≡ some (upto (a.value + 1) n, record { value = a.value + n })
unfolding increments
increments-upto w zero a h = ap (λ v. some ([], record { value = v })) (omega arith)
increments-upto w (suc n) a h =
    let rest = increments-upto w n (record { value = a.value + 1 }) (omega arith) in
    rw (increment-below w a (omega arith), rest)
      (ap (λ v. some ((a.value + 1) ∷ upto (a.value + 1 + 1) n, record { value = v }))
        (omega arith))

increments-last :
    (w n : ℕ) (a : AtomicInteger)
    → a.value + n ≡ 2 ^ w
    → 0 < n
    → 1 < 2 ^ w
    → increments w n a ≡ none
unfolding increments
increments-last w zero a h pos large = absurd (omega arith)
increments-last w (suc zero) a h pos large = rw (increment-overflow w a h large) refl
increments-last w (suc (suc n)) a h pos large =
    rw
      (
        increment-below w a (omega arith),
        increments-last w (suc n) (record { value = a.value + 1 }) (omega arith) (omega arith)
            large,
      )
      refl

-- Whatever threads they come from, the calls of `incrementAndGet` on a new counter of `w + 1` bits return
-- 1, 2, 3 and so on, each once, while there are fewer than 2 ^ w of them, and call 2 ^ w overflows.
pub increments-distinct :
    (w n : ℕ)
    → n < 2 ^ w
    → 1 < 2 ^ w
    → (increments w n init ≡ some (upto 1 n, record { value = n }))
      × (increments w (2 ^ w) init ≡ none)
unfolding init
increments-distinct w n h large = (
  increments-upto w n init (omega arith) ∙ same,
  increments-last w (2 ^ w) init (omega arith) (omega arith) large,
)
  where
    same :
        ◌≡◌ {A = Option (List ℕ × AtomicInteger)}
          (some (upto (0 + 1) n, record { value = 0 + n }))
          (some (upto 1 n, record { value = n }))
    same = ap (λ v. some (upto 1 n, record { value = v })) (omega arith)
