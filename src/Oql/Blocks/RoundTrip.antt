-- ===== src/Oql/Blocks/RoundTrip.antt =====
-- Printing nested blocks as lines and parsing these again.
use oqlos.Base.{ℕ, suc, String, ◌≡◌, refl, ap, ◌∙◌, true, false, List, [], ◌∷◌}
use oqlos.Oql.Blocks.{
  Header, Actions, action, empty, more, Line, Block, add, add_block_to, next_indent, process,
  parse_actions, flush_pending_inline_if, with_open,
}
use oqlos.Oql.Blocks.Script.{
  Item, Items, plain, if_then, if_fail, loop, done, next, with_kind, bare_header, line, action_of,
  actions_of, print, print_all, HasPlainLeaves, HavePlainLeaves, next_indent-print,
}
use oqlos.Oql.Blocks.Steps.{
  between, put, put_all, block, put_all-root, put_all-fill, handle-plain, handle-if, handle-endif,
  handle-else, handle-fail, handle-end, handle-loop, handle-endloop,
}

module _ {C : Type 0} where
  -- the blocks that fill: an IF before and after its ELSE, an IF_FAIL, and a loop
  abbrev then_of : Header C → Actions C → Block C
  then_of h t = block (action (with_kind "if_block" h) t empty empty) false

  abbrev else_of : Header C → Actions C → Actions C → Block C
  else_of h t e = block (action (with_kind "if_block" h) t e empty) true

  abbrev fail_of : Header C → Actions C → Block C
  fail_of h t = block (action (with_kind "if_fail_block" h) t empty empty) false

  abbrev loop_of : Header C → Actions C → Block C
  loop_of h l = block (action (with_kind "loop_block" h) empty empty l) false

  mutual
    unfolding process

    process-print :
        (i : ℕ) (x : Item C) (rest : List (Line C)) (bs : List (Block C)) (actions : Actions C)
        (w : List (ℕ × String))
        → HasPlainLeaves x
        → process (print i x rest) (between bs actions w)
          ≡ process rest (put (action_of x) bs actions w)
    process-print i (plain h) rest bs actions w p =
        ap (process rest) (handle-plain h i (next_indent rest) bs actions w p)
    process-print i (if_then h x xs others) rest bs actions w p =
        let after : List (Line C) = line i (bare_header "endif") ∷ rest in
        let elses = print_all (suc i) others after in
        let body = print_all (suc i) xs (line i (bare_header "else_block") ∷ elses) in
        let t = more (action_of x) (actions_of xs) in
        ap (process (print (suc i) x body)) (
          handle-if h i (next_indent (print (suc i) x body)) bs actions w
            (next_indent-print (suc i) x body))
        ∙ process-print (suc i) x body (then_of h empty ∷ bs) actions w p.0
        ∙ process-print_all (suc i) xs (line i (bare_header "else_block") ∷ elses)
            (then_of h (more (action_of x) empty) ∷ bs) actions w p.1
        ∙ ap (process (line i (bare_header "else_block") ∷ elses)) (
            put_all-fill (then_of h) (λ ys y. refl) (actions_of xs) (more (action_of x) empty) bs
              actions w)
        ∙ ap (process elses) (handle-else i (next_indent elses) h t empty empty bs actions w)
        ∙ process-print_all (suc i) others after (else_of h t empty ∷ bs) actions w p.2
        ∙ ap (process after)
            (put_all-fill (else_of h t) (λ ys y. refl) (actions_of others) empty bs actions w)
        ∙ ap (process rest)
            (handle-endif i (next_indent rest) h t (actions_of others) empty true bs actions w)
    process-print i (if_fail h xs) rest bs actions w p =
        let after : List (Line C) = line i (bare_header "end") ∷ rest in
        let body = print_all (suc i) xs after in
        ap (process body) (handle-fail h i (next_indent body) bs actions w)
        ∙ process-print_all (suc i) xs after (fail_of h empty ∷ bs) actions w p
        ∙ ap (process after)
            (put_all-fill (fail_of h) (λ ys y. refl) (actions_of xs) empty bs actions w)
        ∙ ap (process rest) (handle-end i (next_indent rest) h (actions_of xs) bs actions w)
    process-print i (loop h xs) rest bs actions w p =
        let after : List (Line C) = line i (bare_header "endloop") ∷ rest in
        let body = print_all (suc i) xs after in
        ap (process body) (handle-loop h i (next_indent body) bs actions w)
        ∙ process-print_all (suc i) xs after (loop_of h empty ∷ bs) actions w p
        ∙ ap (process after)
            (put_all-fill (loop_of h) (λ ys y. refl) (actions_of xs) empty bs actions w)
        ∙ ap (process rest) (handle-endloop i (next_indent rest) h (actions_of xs) bs actions w)

    process-print_all :
        (i : ℕ) (xs : Items C) (rest : List (Line C)) (bs : List (Block C)) (actions : Actions C)
        (w : List (ℕ × String))
        → HavePlainLeaves xs
        → process (print_all i xs rest) (between bs actions w)
          ≡ process rest (put_all (actions_of xs) bs actions w)
    process-print_all i done rest bs actions w p = refl
    process-print_all i (next x xs) rest [] actions w p =
        process-print i x (print_all i xs rest) [] actions w p.0
        ∙ process-print_all i xs rest [] (add actions (action_of x)) w p.1
    process-print_all i (next x xs) rest (b ∷ bs) actions w p =
        process-print i x (print_all i xs rest) (b ∷ bs) actions w p.0
        ∙ process-print_all i xs rest (add_block_to b (action_of x) ∷ bs) actions w p.1

  -- Round trip: the lines of a script of nested IF, IF_FAIL and LOOP blocks, whose leaves are
  -- standard actions, parse to that script's actions, with no warning.
  pub parse_actions-print_all :
      (i : ℕ) (xs : Items C)
      → HavePlainLeaves xs
      → parse_actions (print_all i xs []) ≡ (actions_of xs, [])
  unfolding parse_actions process flush_pending_inline_if with_open
  parse_actions-print_all i xs p =
      rw (process-print_all i xs [] [] empty [] p, put_all-root (actions_of xs) empty []) refl
