-- ===== src/TimeQueue/Inv.antt =====
-- The order of the timer set, who owns its timers, and what the timerfd is armed for.
use thread_and_net.Prelude.{ℕ, ◌≡◌, ◌≢◌, ◌⊎◌, ◌<◌, ◌≤◌, Option, some, List, [], ◌∷◌, true, arith}
use thread_and_net.TimeQueue.{TimeQueue, TimerInfo, Entry, entry_ltb, uintptr_max}

abbrev pub All {ℓ κ} : {A : Type ℓ} → (A → Type κ) → List A → Type κ
All P [] = Unit
All P (x ∷ xs) = P x × All P xs

-- The order of the entries: by time, then by address.
abbrev pub Before : Entry → Entry → Type 0
Before a b = (a.when < b.when) ⊎ ((a.when ≡ b.when) × (a.ptr < b.ptr))

pub entry_ltb→Before : (a b : Entry) → entry_ltb a b ≡ true → Before a b
entry_ltb→Before a b h = ground arith

pub Before→entry_ltb : (a b : Entry) → Before a b → entry_ltb a b ≡ true
Before→entry_ltb a b h = ground arith

pub Before-trans : (a b c : Entry) → Before a b → Before b c → Before a c
Before-trans a b c h k = ground arith

abbrev pub IsSorted : List Entry → Type 0
IsSorted [] = Unit {0}
IsSorted (x ∷ xs) = All (Before x) xs × IsSorted xs

-- No entry of the list is the timer at `p`.
abbrev pub Without : ℕ → List Entry → Type 0
Without p = All (λ e. e.ptr ≢ p)

abbrev pub Apart : List Entry → Type 0
Apart [] = Unit {0}
Apart (x ∷ xs) = Without x.ptr xs × Apart xs

-- The entry's timer is allocated, and expires when the entry says.
abbrev pub Owned : (ℕ → Option TimerInfo) → Entry → Type 0
Owned heap e =
    (i : TimerInfo) × (heap e.ptr ≡ some i) × (i.expiration ≡ e.when) × (e.ptr < uintptr_max)

-- The timerfd is armed for no later than the first timer.
abbrev pub ArmedFor : Option ℕ → List Entry → Type 0
ArmedFor a [] = Unit {0}
ArmedFor a (x ∷ xs) = (t : ℕ) × (a ≡ some t) × (t ≤ x.when)

pub record Wf (q : TimeQueue) : Type 0 where
  pub sorted : IsSorted q.timers
  pub apart : Apart q.timers
  pub owned : All (Owned q.heap) q.timers
  pub armed_for : ArmedFor q.requested q.timers

pub All-mono {ℓ κ ι} :
    {A : Type ℓ} {P : A → Type κ} {Q : A → Type ι} (xs : List A)
    → ((a : A) → P a → Q a)
    → All P xs
    → All Q xs
All-mono [] f h = tt
All-mono (x ∷ xs) f h = (f x h.0, All-mono xs f h.1)
