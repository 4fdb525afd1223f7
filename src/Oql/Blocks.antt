-- ===== src/Oql/Blocks.antt =====
-- How `_ParseState` of packages/oqlos-core/src/oqlos/core/cql_parser.py nests the actions of one
-- step. A line is one that the tokenizer has made an action of; blank lines, comments and the
-- headers of goals and steps are left out. `C` is the type of conditions.
pub mod Script
pub mod Steps
pub mod RoundTrip
use oqlos.Base.{
  ℕ, String, Bool, true, false, not, ◌&&◌, ◌||◌, Option, none, some, List, [], ◌∷◌, ◌++◌, ◌==◌, ltb,
  nat_eq, if◌then◌else◌,
}

pub record Header (C : Type 0) : Type 0 where
  pub kind : String
  pub target : String
  pub method : String
  pub args : String
  pub condition : Option C
  pub raw : String

-- `OqlAction`, with its then-, else- and loop-actions
mutual
  pub data Action (C : Type 0) : Type 0 where
    action : Header C → Actions C → Actions C → Actions C → Action C

  pub data Actions (C : Type 0) : Type 0 where
    empty : Actions C
    more : Action C → Actions C → Actions C

pub record Line (C : Type 0) : Type 0 where
  pub number : ℕ
  pub indent : ℕ
  pub act : Action C

-- an entry of `block_stack`
pub record Block (C : Type 0) : Type 0 where
  pub parent_act : Action C
  pub in_else : Bool

-- `block_stack` has its top first. The program appends a block to its parent's list when it opens
-- it and fills it by reference; here it joins that list when it is closed. Nothing else is
-- appended to that list while the block is open, so the lists that result are the same.
pub record ParseState (C : Type 0) : Type 0 where
  pub block_stack : List (Block C)
  pub actions : Actions C
  pub pending_inline_if : Option (Action C × ℕ)
  pub warnings : List (ℕ × String)

-- the kinds that `_attach_pending_inline_if` does not attach
abbrev controls : String → Bool
controls kind =
    kind == "if_block"
    || kind == "if_fail_block"
    || kind == "loop_block"
    || kind == "else_block"
    || kind == "endif"
    || kind == "end"
    || kind == "endloop"

module _ {C : Type 0} where
  abbrev pub kind_of : Action C → String
  kind_of (action h _ _ _) = h.kind

  -- `xs.append(x)`
  abbrev pub add : Actions C → Action C → Actions C
  add empty x = more x empty
  add (more y ys) x = more y (add ys x)

  abbrev pub add_then : Action C → Action C → Action C
  add_then (action h t e l) x = action h (add t x) e l

  abbrev pub add_else : Action C → Action C → Action C
  add_else (action h t e l) x = action h t (add e x) l

  abbrev pub add_loop : Action C → Action C → Action C
  add_loop (action h t e l) x = action h t e (add l x)

  abbrev pub has_no_actions : Action C → Bool
  has_no_actions (action _ empty empty _) = true
  has_no_actions _ = false

  abbrev warn : ℕ → String → ParseState C → ParseState C
  warn n text s = record s { warnings = s.warnings ++ (n, text) ∷ [] }

  -- `_add_action_to_parent` on the block at the top
  abbrev pub add_to_block : Block C → Action C → Block C
  add_to_block b act =
      if kind_of b.parent_act == "loop_block"
      then record b { parent_act = add_loop b.parent_act act }
      else if (kind_of act == "else" && kind_of b.parent_act == "if_block") && not b.in_else
      then record b { parent_act = add_else b.parent_act act }
      else if b.in_else
      then record b { parent_act = add_else b.parent_act act }
      else record b { parent_act = add_then b.parent_act act }

  -- where `_append_parent_stack_action` puts a block
  abbrev pub add_block_to : Block C → Action C → Block C
  add_block_to b act =
      if kind_of b.parent_act == "loop_block"
      then record b { parent_act = add_loop b.parent_act act }
      else if b.in_else
      then record b { parent_act = add_else b.parent_act act }
      else record b { parent_act = add_then b.parent_act act }

  abbrev pub add_action_to_parent : ParseState C → Action C → ParseState C
  add_action_to_parent s act = elim s.block_stack [
    | [] ↦ record s { actions = add s.actions act }
    | b ∷ bs ↦ record s { block_stack = add_to_block b act ∷ bs }
  ]

  abbrev pub append_parent_stack_action : Action C → List (Block C) → ParseState C → ParseState C
  append_parent_stack_action act [] s = record s { block_stack = []; actions = add s.actions act }
  append_parent_stack_action act (b ∷ bs) s = record s { block_stack = add_block_to b act ∷ bs }

  abbrev as_if_else : Action C → Action C
  as_if_else (action h t e l) = action (record h { kind = "if_else" }) t e l

  unfoldable pub flush_pending_inline_if : Bool → ParseState C → ParseState C
  flush_pending_inline_if preserve_block s = elim s.pending_inline_if [
    | none ↦ s
    | some (act, _) ↦
        let flat = not preserve_block && has_no_actions act in
        record (add_action_to_parent s (if flat then as_if_else act else act)) {
          pending_inline_if = none;
        }
  ]

  -- Whether an action is attached, and the state after.
  unfoldable pub attach_pending_inline_if : Action C → ℕ → ParseState C → Option (ParseState C)
  unfolding flush_pending_inline_if
  attach_pending_inline_if act indent s = elim s.pending_inline_if [
    | none ↦ none
    | some (pending, pending_indent) ↦
        if not (nat_eq indent pending_indent) || controls (kind_of act)
        then none
        else if kind_of act == "else"
        then some (
            flush_pending_inline_if false
              (record s { pending_inline_if = some (add_else pending act, pending_indent) }))
        else if has_no_actions pending
        then some (record s { pending_inline_if = some (add_then pending act, pending_indent) })
        else none
  ]

  -- The block at the top is closed. A mismatch only adds a warning.
  unfoldable pub pop_block_with_warning : ℕ → String → String → ParseState C → ParseState C
  pop_block_with_warning n expected_kind message s = elim s.block_stack [
    | [] ↦ warn n message s
    | b ∷ bs ↦
        append_parent_stack_action b.parent_act bs
          (if kind_of b.parent_act == expected_kind then s else warn n message s)
  ]

  unfoldable pub handle_else_block : ℕ → ParseState C → ParseState C
  handle_else_block n s = elim s.block_stack [
    | [] ↦ warn n "ELSE ohne IF" s
    | b ∷ bs ↦
        record (if kind_of b.parent_act == "if_block" then s else warn n "ELSE inside LOOP" s) {
          block_stack = record b { in_else = true } ∷ bs;
        }
  ]

  abbrev open_block : Action C → ParseState C → ParseState C
  open_block act s = record s {
    block_stack = record { parent_act = act; in_else = false } ∷ s.block_stack;
  }

  -- `_handle_block_control`; `none` where the action controls no block
  unfoldable pub handle_block_control : ℕ → Action C → ParseState C → Option (ParseState C)
  unfolding handle_else_block pop_block_with_warning
  handle_block_control n act s =
      let kind = kind_of act in
      if kind == "if_block" || kind == "if_fail_block"
      then some (open_block act s)
      else if kind == "loop_block"
      then some (open_block act s)
      else if kind == "else_block"
      then some (handle_else_block n s)
      else if kind == "endif"
      then some (pop_block_with_warning n "if_block" "ENDIF ohne IF" s)
      else if kind == "end"
      then some (pop_block_with_warning n "if_fail_block" "END ohne IF_FAIL" s)
      else if kind == "endloop"
      then some (pop_block_with_warning n "loop_block" "ENDLOOP ohne LOOP" s)
      else none

  -- block control, or a standard action
  unfoldable pub control_or_add : ℕ → Action C → ParseState C → ParseState C
  unfolding handle_block_control
  control_or_add n act s = elim (handle_block_control n act s) [
    | some s' ↦ s'
    | none ↦ add_action_to_parent s act
  ]

  -- `_handle_action_dispatch`; the next line that is not blank has the indent `next`.
  unfoldable pub handle_action_dispatch : Line C → Option ℕ → ParseState C → ParseState C
  unfolding control_or_add
  handle_action_dispatch l next s =
      let deeper : Bool = elim next [ none ↦ false | some i ↦ ltb l.indent i ] in
      if kind_of l.act == "if_block" && not deeper
      then record s { pending_inline_if = some (l.act, l.indent) }
      else control_or_add l.number l.act s

  ends_pending : Line C → Option (Action C × ℕ) → Bool
  ends_pending l none = false
  ends_pending l (some (_, pending_indent)) =
      kind_of l.act == "endif" && nat_eq l.indent pending_indent

  dispatch_or : Line C → Option ℕ → ParseState C → Option (ParseState C) → ParseState C
  unfolding handle_action_dispatch flush_pending_inline_if
  dispatch_or l next s (some attached) = attached
  dispatch_or l next s none = handle_action_dispatch l next (flush_pending_inline_if false s)

  -- the end of `_try_hierarchy`, with `_handle_inline_if_logic`
  unfoldable pub handle_action : Line C → Option ℕ → ParseState C → ParseState C
  unfolding ends_pending dispatch_or attach_pending_inline_if
  handle_action l next s =
      if ends_pending l s.pending_inline_if
      then flush_pending_inline_if true s
      else dispatch_or l next s (attach_pending_inline_if l.act l.indent s)

  abbrev pub next_indent : List (Line C) → Option ℕ
  next_indent [] = none
  next_indent (l ∷ ls) = some l.indent

  unfoldable pub process : List (Line C) → ParseState C → ParseState C
  unfolding handle_action
  process [] s = s
  process (l ∷ ls) s = process ls (handle_action l (next_indent ls) s)

  close_up : Action C → List (Block C) → Actions C → Actions C
  close_up act [] actions = add actions act
  close_up act (b ∷ bs) actions = close_up (add_block_to b act).parent_act bs actions

  -- What the step lists, the blocks that are still open included.
  unfoldable pub with_open : List (Block C) → Actions C → Actions C
  unfolding close_up
  with_open [] actions = actions
  with_open (b ∷ bs) actions = close_up b.parent_act bs actions

  -- The actions of a step that consists of these lines, and the parser's warnings.
  unfoldable pub parse_actions : List (Line C) → Actions C × List (ℕ × String)
  unfolding process with_open flush_pending_inline_if
  parse_actions lines =
      let s = flush_pending_inline_if false (
        process lines (record {
          block_stack = [];
          actions = empty;
          pending_inline_if = none;
          warnings = [];
        })) in
      (with_open s.block_stack s.actions, s.warnings)
