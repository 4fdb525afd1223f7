-- ===== src/Oql/Blocks/Steps.antt =====
-- What the parser does with one line where no flat IF is pending.
use oqlos.Base.{
  ℕ, suc, String, ◌≡◌, refl, sym, ap, ◌∙◌, Bool, true, false, Option, none, some, List, [], ◌∷◌,
  arith, ltb,
}
use oqlos.Oql.Blocks.{
  Header, Action, Actions, action, empty, more, Block, ParseState, add, add_block_to, handle_action,
  handle_action_dispatch, control_or_add, handle_block_control, pop_block_with_warning,
  handle_else_block, dispatch_or, ends_pending, attach_pending_inline_if, flush_pending_inline_if,
}
use oqlos.Oql.Blocks.Script.{with_kind, bare_header, line, IsPlain}

ltb-suc : (i : ℕ) → ltb i (suc i) ≡ true
ltb-suc i = ground arith

module _ {C : Type 0} where
  abbrev pub between : List (Block C) → Actions C → List (ℕ × String) → ParseState C
  between bs actions w = record {
    block_stack = bs;
    actions = actions;
    pending_inline_if = none;
    warnings = w;
  }

  abbrev pub put : Action C → List (Block C) → Actions C → List (ℕ × String) → ParseState C
  put act [] actions w = between [] (add actions act) w
  put act (b ∷ bs) actions w = between (add_block_to b act ∷ bs) actions w

  abbrev pub put_all : Actions C → List (Block C) → Actions C → List (ℕ × String) → ParseState C
  put_all empty bs actions w = between bs actions w
  put_all (more x xs) [] actions w = put_all xs [] (add actions x) w
  put_all (more x xs) (b ∷ bs) actions w = put_all xs (add_block_to b x ∷ bs) actions w

  abbrev join : Actions C → Actions C → Actions C
  join empty ys = ys
  join (more x xs) ys = more x (join xs ys)

  abbrev pub block : Action C → Bool → Block C
  block act in_else = record { parent_act = act; in_else = in_else }

  join-add :
      (xs : Actions C) (x : Action C) (ys : Actions C) → join (add xs x) ys ≡ join xs (more x ys)
  join-add empty x ys = refl
  join-add (more y xs) x ys = ap (more y) (join-add xs x ys)

  join-empty : (xs : Actions C) → join xs empty ≡ xs
  join-empty empty = refl
  join-empty (more x xs) = ap (more x) (join-empty xs)

  pub put_all-root :
      (xs actions : Actions C) (w : List (ℕ × String))
      → put_all xs [] actions w ≡ between [] (join actions xs) w
  put_all-root empty actions w = ap (λ a. between [] a w) (sym (join-empty actions))
  put_all-root (more x xs) actions w =
      put_all-root xs (add actions x) w ∙ ap (λ a. between [] a w) (join-add actions x xs)

  -- a list of actions put into a block, whichever of its lists takes them
  pub put_all-fill :
      (frame : Actions C → Block C)
      → ((ys : Actions C) (x : Action C) → add_block_to (frame ys) x ≡ frame (add ys x))
      → (xs ys : Actions C) (bs : List (Block C)) (actions : Actions C) (w : List (ℕ × String))
      → put_all xs (frame ys ∷ bs) actions w ≡ between (frame (join ys xs) ∷ bs) actions w
  put_all-fill frame fills empty ys bs actions w =
      ap (λ zs. between (frame zs ∷ bs) actions w) (sym (join-empty ys))
  put_all-fill frame fills (more x xs) ys bs actions w =
      ap (λ b. put_all xs (b ∷ bs) actions w) (fills ys x)
      ∙ put_all-fill frame fills xs (add ys x) bs actions w
      ∙ ap (λ zs. between (frame zs ∷ bs) actions w) (join-add ys x xs)

  pub handle-plain :
      (h : Header C) (i : ℕ) (following : Option ℕ) (bs : List (Block C)) (actions : Actions C)
      (w : List (ℕ × String))
      → IsPlain h
      → handle_action (line i h) following (between bs actions w)
        ≡ put (action h empty empty empty) bs actions w
  unfolding handle_action dispatch_or handle_action_dispatch control_or_add handle_block_control
      attach_pending_inline_if flush_pending_inline_if ends_pending
  handle-plain h i following [] actions w p = ground (arith, p.0, p.1)
  handle-plain h i following (b ∷ bs) actions w p = ground (arith, p.0, p.1)

  pub handle-if :
      (h : Header C) (i : ℕ) (following : Option ℕ) (bs : List (Block C)) (actions : Actions C)
      (w : List (ℕ × String))
      → following ≡ some (suc i)
      → handle_action (line i (with_kind "if_block" h)) following (between bs actions w)
        ≡ between (block (action (with_kind "if_block" h) empty empty empty) false ∷ bs) actions w
  unfolding handle_action dispatch_or handle_action_dispatch control_or_add handle_block_control
      attach_pending_inline_if flush_pending_inline_if ends_pending
  handle-if h i following bs actions w deeper = rw (deeper, ltb-suc i) refl

  pub handle-endif :
      (i : ℕ) (following : Option ℕ) (h : Header C) (t e l : Actions C) (in_else : Bool)
      (bs : List (Block C)) (actions : Actions C) (w : List (ℕ × String))
      → handle_action
          (line i (bare_header "endif"))
          following
          (between (block (action (with_kind "if_block" h) t e l) in_else ∷ bs) actions w)
        ≡ put (action (with_kind "if_block" h) t e l) bs actions w
  unfolding handle_action dispatch_or handle_action_dispatch control_or_add handle_block_control
      attach_pending_inline_if flush_pending_inline_if ends_pending pop_block_with_warning
  handle-endif i following h t e l in_else [] actions w = refl
  handle-endif i following h t e l in_else (b ∷ bs) actions w = refl

  pub handle-else :
      (i : ℕ) (following : Option ℕ) (h : Header C) (t e l : Actions C) (bs : List (Block C))
      (actions : Actions C) (w : List (ℕ × String))
      → handle_action
          (line i (bare_header "else_block"))
          following
          (between (block (action (with_kind "if_block" h) t e l) false ∷ bs) actions w)
        ≡ between (block (action (with_kind "if_block" h) t e l) true ∷ bs) actions w
  unfolding handle_action dispatch_or handle_action_dispatch control_or_add handle_block_control
      attach_pending_inline_if flush_pending_inline_if ends_pending handle_else_block
  handle-else i following h t e l bs actions w = refl

  pub handle-fail :
      (h : Header C) (i : ℕ) (following : Option ℕ) (bs : List (Block C)) (actions : Actions C)
      (w : List (ℕ × String))
      → handle_action (line i (with_kind "if_fail_block" h)) following (between bs actions w)
        ≡ between
            (block (action (with_kind "if_fail_block" h) empty empty empty) false ∷ bs)
            actions
            w
  unfolding handle_action dispatch_or handle_action_dispatch control_or_add handle_block_control
      attach_pending_inline_if flush_pending_inline_if ends_pending
  handle-fail h i following bs actions w = refl

  pub handle-end :
      (i : ℕ) (following : Option ℕ) (h : Header C) (t : Actions C) (bs : List (Block C))
      (actions : Actions C) (w : List (ℕ × String))
      → handle_action (line i (bare_header "end")) following (
          between (block (action (with_kind "if_fail_block" h) t empty empty) false ∷ bs) actions w)
        ≡ put (action (with_kind "if_fail_block" h) t empty empty) bs actions w
  unfolding handle_action dispatch_or handle_action_dispatch control_or_add handle_block_control
      attach_pending_inline_if flush_pending_inline_if ends_pending pop_block_with_warning
  handle-end i following h t [] actions w = refl
  handle-end i following h t (b ∷ bs) actions w = refl

  pub handle-loop :
      (h : Header C) (i : ℕ) (following : Option ℕ) (bs : List (Block C)) (actions : Actions C)
      (w : List (ℕ × String))
      → handle_action (line i (with_kind "loop_block" h)) following (between bs actions w)
        ≡ between (block (action (with_kind "loop_block" h) empty empty empty) false ∷ bs) actions w
  unfolding handle_action dispatch_or handle_action_dispatch control_or_add handle_block_control
      attach_pending_inline_if flush_pending_inline_if ends_pending
  handle-loop h i following bs actions w = refl

  pub handle-endloop :
      (i : ℕ) (following : Option ℕ) (h : Header C) (l : Actions C) (bs : List (Block C))
      (actions : Actions C) (w : List (ℕ × String))
      → handle_action
          (line i (bare_header "endloop"))
          following
          (between (block (action (with_kind "loop_block" h) empty empty l) false ∷ bs) actions w)
        ≡ put (action (with_kind "loop_block" h) empty empty l) bs actions w
  unfolding handle_action dispatch_or handle_action_dispatch control_or_add handle_block_control
      attach_pending_inline_if flush_pending_inline_if ends_pending pop_block_with_warning
  handle-endloop i following h l [] actions w = refl
  handle-endloop i following h l (b ∷ bs) actions w = refl
