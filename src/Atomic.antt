-- ===== src/Atomic.antt =====
-- ThreadAndNetWorkCoding/zdq_atomic.h: `AtomicIntegerT` over a signed integer of `w + 1` bits, so that `w`
-- is 31 for `AtomicInt32` and 63 for `AtomicInt64`. A value is given by its bits, a number below
-- 2 * 2 ^ w. The builtins wrap around; the `+` of `addAndGet` may not overflow, and `none` is that it does.
-- Each builtin of the compiler is one atomic step, so that the calls of several threads are a
-- sequence of steps. Each operation gives its result and the new state.
pub mod Count
pub mod Examples
use thread_and_net.Prelude.{
  ℕ, zero, suc, ◌+◌, ◌-◌, ◌*◌, ◌%◌, ◌^◌, ◌==◌, if◌then◌else◌, Bool, List, [], Option, none, some,
  ◌>>=◌, leb, not, ◌&&◌, ◌∷◌,
}

pub record AtomicInteger : Type 0 where
  pub value : ℕ

unfoldable pub init : AtomicInteger
init = record { value = 0 }

-- `__sync_val_compare_and_swap`
pub compare_and_swap : AtomicInteger → ℕ → ℕ → ℕ × AtomicInteger
compare_and_swap a old new = (a.value, (if a.value == old then record { value = new } else a))

-- `get`
pub get : AtomicInteger → ℕ × AtomicInteger
unfolding compare_and_swap
get a = compare_and_swap a 0 0

-- `getAndAdd`
pub get_and_add : ℕ → AtomicInteger → ℕ → ℕ × AtomicInteger
get_and_add w a x = (a.value, record { value = (a.value + x) % (2 * 2 ^ w) })

-- Is the number with these bits negative?
abbrev pub is_negative : ℕ → ℕ → Bool
is_negative w x = leb (2 ^ w) x

-- `x + y` of two signed integers: their sum, or an overflow, where both have one sign and the sum has the
-- other.
pub add_signed : ℕ → ℕ → ℕ → Option ℕ
add_signed w x y =
    let sum = (x + y) % (2 * 2 ^ w) in
    if is_negative w x
    then (if is_negative w y && not (is_negative w sum) then none else some sum)
    else (if not (is_negative w y) && is_negative w sum then none else some sum)

-- `addAndGet`
pub add_and_get : ℕ → AtomicInteger → ℕ → Option (ℕ × AtomicInteger)
unfolding get_and_add add_signed
add_and_get w a x = do let r = get_and_add w a x; sum ← add_signed w r.0 x; some (sum, r.1)

-- `incrementAndGet`
pub increment_and_get : ℕ → AtomicInteger → Option (ℕ × AtomicInteger)
unfolding add_and_get
increment_and_get w a = add_and_get w a 1

-- `decrementAndGet`, by the bits of -1
pub decrement_and_get : ℕ → AtomicInteger → Option (ℕ × AtomicInteger)
unfolding add_and_get
decrement_and_get w a = add_and_get w a (2 * 2 ^ w - 1)

-- `getAndSet`
pub get_and_set : AtomicInteger → ℕ → ℕ × AtomicInteger
get_and_set a x = (a.value, record { value = x })

-- `n` calls of `incrementAndGet`, and what they return
pub increments : ℕ → ℕ → AtomicInteger → Option (List ℕ × AtomicInteger)
unfolding increment_and_get
increments w zero a = some ([], a)
increments w (suc n) a = do
  r ← increment_and_get w a
  rest ← increments w n r.1
  some (r.0 ∷ rest.0, rest.1)
