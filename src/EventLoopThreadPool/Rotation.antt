-- ===== src/EventLoopThreadPool/Rotation.antt =====
-- The loops are handed out in turn.
use thread_and_net.Prelude.{
  ℕ, zero, suc, ◌+◌, ◌≡◌, ◌≢◌, refl, sym, ap, if◌then◌else◌, ◌∙◌, true, List, [], ◌∷◌, ◌++◌, arith,
  Option, some, ◌>>=◌, length, get_elem?, leb, append_assoc,
}
use thread_and_net.EventLoopThreadPool.{EventLoopThreadPool, get_next_loop}

-- What `n` calls of `getNextLoop` in a row hand out
unfoldable pub next_loops : ℕ → EventLoopThreadPool → Option (List ℕ × EventLoopThreadPool)
next_loops zero p = some ([], p)
next_loops (suc n) p = do r ← get_next_loop true p; rs ← next_loops n r.1; some (r.0 ∷ rs.0, rs.1)

middle : (pre post : List ℕ) (x : ℕ) → get_elem? (pre ++ x ∷ post) (length pre) ≡ some x
middle [] post x = refl
middle (y ∷ pre) post x = middle pre post x

longer : (pre post : List ℕ) → length (pre ++ post) ≡ length pre + length post
longer [] post = omega arith
longer (y ∷ pre) post = omega (arith, longer pre post)

-- One call, in the middle of a round
one :
    (p : EventLoopThreadPool) (pre post : List ℕ) (x : ℕ)
    → p.started ≡ true
    → p.loops ≡ pre ++ x ∷ post
    → p.next ≡ length pre
    → get_next_loop true p
      ≡ some (x, record p { next = if leb (length post) 0 then 0 else length pre + 1 })
unfolding get_next_loop
one p pre post x on ls at =
    let size : length p.loops ≡ length pre + suc (length post) =
      ap length ls ∙ longer pre (x ∷ post) in
    let there : get_elem? p.loops p.next ≡ some x =
      ap (λ v. get_elem? v p.next) ls ∙ ap (get_elem? (pre ++ x ∷ post)) at ∙ middle pre post x in
    ground (arith, size, there)

next_loops-suc :
    (n : ℕ) (p q r : EventLoopThreadPool) (x : ℕ) (xs : List ℕ)
    → get_next_loop true p ≡ some (x, q)
    → next_loops n q ≡ some (xs, r)
    → next_loops (suc n) p ≡ some (x ∷ xs, r)
unfolding next_loops
next_loops-suc n p q r x xs a b = rw a (rw b refl)

rest :
    (p : EventLoopThreadPool) (pre post : List ℕ) (x : ℕ)
    → p.started ≡ true
    → p.loops ≡ pre ++ x ∷ post
    → p.next ≡ length pre
    → next_loops (length (x ∷ post)) p ≡ some (x ∷ post, record p { next = 0 })
unfolding next_loops
rest p pre [] x on ls at =
    next_loops-suc 0 p (record p { next = 0 }) (record p { next = 0 }) x []
      (one p pre [] x on ls at) refl
rest p pre (y ∷ post) x on ls at =
    let q : EventLoopThreadPool = record p {
      next = if leb (length (y ∷ post)) 0 then 0 else length pre + 1;
    } in
    next_loops-suc (length (y ∷ post)) p q (record p { next = 0 }) x (y ∷ post)
      (one p pre (y ∷ post) x on ls at)
      (rest q (pre ++ x ∷ []) post y on (ls ∙ sym (append_assoc pre (x ∷ []) (y ∷ post)))
        (ground (arith, longer pre (x ∷ []))))

-- In a pool that has been started and has threads, as many calls of `getNextLoop` as there are loops,
-- from the first loop's turn on, hand out each loop once, in order, and it is the first one's turn
-- again.
pub next_loops-round :
    (p : EventLoopThreadPool)
    → p.started ≡ true
    → p.loops ≢ []
    → p.next ≡ 0
    → next_loops (length p.loops) p ≡ some (p.loops, record p { next = 0 })
next_loops-round p on some_loop first = round p.loops refl
  where
    round :
        (ls : List ℕ) → p.loops ≡ ls → next_loops (length ls) p ≡ some (ls, record p { next = 0 })
    round [] e = absurd (some_loop e)
    round (x ∷ ls) e = rest p [] ls x on e first
