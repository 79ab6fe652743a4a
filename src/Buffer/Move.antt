-- ===== src/Buffer/Move.antt =====
-- `movetohead`: the loop ends, and leaves the readable bytes at the front.
use native.Mathlib.Numerals.{add-one}
use native.Mathlib.Nat.{zero-add}
use thread_and_net.Prelude.{
  ap₂, append_assoc, ℕ, zero, suc, ◌+◌, ◌-◌, ◌≡◌, ◌≤◌, ◌<◌, refl, ◌∙◌, sym, ap, List, [], ◌∷◌, ◌++◌,
  arith, ltb, length, set, ltb→lt, append-nil, get_or, take, drop, length-set, Bool-cases, inl, inr,
}
use thread_and_net.Buffer.{Buffer, move_loop, movetohead, peek}
use thread_and_net.Buffer.Inv.{IsValid}

take-set : (v : List ℕ) (i x : ℕ) → i < length v → take (suc i) (set v i x) ≡ take i v ++ x ∷ []
take-set [] i x h = absurd (omega arith)
take-set (y ∷ v) zero x h = refl
take-set (y ∷ v) (suc i) x h = ap (λ t. y ∷ t) (take-set v i x (omega arith))

drop-set : (v : List ℕ) (i r x : ℕ) → i < r → drop r (set v i x) ≡ drop r v
drop-set [] i r x h = refl
drop-set (y ∷ v) i zero x h = absurd (omega arith)
drop-set (y ∷ v) zero (suc r) x h = refl
drop-set (y ∷ v) (suc i) (suc r) x h = drop-set v i r x (omega arith)

take-suc-drop :
    (v : List ℕ) (r n : ℕ)
    → r < length v
    → take (suc n) (drop r v) ≡ get_or v r 0 ∷ take n (drop (suc r) v)
take-suc-drop [] r n h = absurd (omega arith)
take-suc-drop (y ∷ v) zero n h = refl
take-suc-drop (y ∷ v) (suc r) n h = take-suc-drop v r n (omega arith)

record Moved (v : List ℕ) (i r w : ℕ) (out : List ℕ × ℕ) : Type 0 where
  count : out.1 ≡ i + (w - r)
  size : length out.0 ≡ length v
  bytes : take out.1 out.0 ≡ take i v ++ take (w - r) (drop r v)

-- One round of the loop.
Moved-step :
    (v : List ℕ) (i r w : ℕ) (out : List ℕ × ℕ)
    → i ≤ r
    → r < w
    → w ≤ length v
    → Moved (set v i (get_or v r 0)) (i + 1) (r + 1) w out
    → Moved v i r w out
Moved-step v i r w out hi hr hw m = record {
  count = omega (arith, m.count);
  size = m.size ∙ length-set v i x;
  bytes =
      m.bytes
      ∙ ap₂ ◌++◌ head tail
      ∙ append_assoc (take i v) (x ∷ []) (take (w - suc r) (drop (suc r) v))
      ∙ ap (◌++◌ (take i v))
          (sym (take-suc-drop v r (w - suc r) (omega arith)) ∙ ap (λ n. take n (drop r v)) more);
}
  where
    x : ℕ
    x = get_or v r 0

    more : suc (w - suc r) ≡ w - r
    more = omega arith

    head : take (i + 1) (set v i x) ≡ take i v ++ x ∷ []
    head = rw add-one (take-set v i x (omega arith))

    tail : take (w - (r + 1)) (drop (r + 1) (set v i x)) ≡ take (w - suc r) (drop (suc r) v)
    tail = rw (add-one, drop-set v i (suc r) x (omega arith))

-- Enough fuel: one round for each readable byte.
move_loop-Moved :
    (fuel : ℕ) (v : List ℕ) (i r w : ℕ)
    → i ≤ r
    → r ≤ w
    → w ≤ length v
    → w ≤ fuel + r
    → Moved v i r w (move_loop fuel v i r w)
unfolding move_loop
move_loop-Moved zero v i r w hi hr hw hf =
    let none_left : w - r ≡ 0 = omega arith in
    record { count = omega arith; size = refl; bytes = rw (none_left, append-nil) }
move_loop-Moved (suc fuel) v i r w hi hr hw hf = elim (Bool-cases (ltb r w)) [
  | inl more ↦ rw more (
      Moved-step v i r w _ hi (ltb→lt r w more) hw (
        move_loop-Moved fuel (set v i (get_or v r 0)) (i + 1) (r + 1) w (omega arith)
          (omega (arith, ltb→lt r w more)) (rw (length-set v i (get_or v r 0)) hw) (omega arith)))
  | inr done ↦
      let none_left : w - r ≡ 0 = ground arith in
      rw done (record { count = omega arith; size = refl; bytes = rw (none_left, append-nil) })
]

-- `movetohead` keeps the readable bytes, and puts them at the front.
pub record AtHead (b : Buffer) (b' : Buffer) : Type 0 where
  pub read : b'.read_index ≡ 0
  pub write : b'.write_index ≡ b.write_index - b.read_index
  pub size : length b'.v_buff ≡ length b.v_buff
  pub bytes : take b'.write_index b'.v_buff ≡ take (b.write_index - b.read_index) (peek b)

pub movetohead-AtHead : (b : Buffer) → IsValid b → AtHead b (movetohead b)
unfolding movetohead
movetohead-AtHead b v =
    let m =
      move_loop-Moved b.write_index b.v_buff 0 b.read_index b.write_index (omega arith) v.ordered
        v.inside (omega arith) in
    record { read = refl; write = m.count ∙ zero-add _; size = m.size; bytes = m.bytes }
