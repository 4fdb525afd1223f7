-- ===== src/Oql/Blocks/Script.antt =====
-- Scripts of nested blocks, the actions that they stand for, and their lines.
use oqlos.Base.{ℕ, suc, String, ◌≡◌, refl, false, none, some, List, ◌∷◌, ◌==◌}
use oqlos.Oql.Blocks.{Header, Action, Actions, action, empty, more, Line, next_indent, controls}

-- The scripts of nested blocks: an IF block has at least one action.
mutual
  pub data Item (C : Type 0) : Type 0 where
    plain : Header C → Item C
    if_then : Header C → Item C → Items C → Items C → Item C
    if_fail : Header C → Items C → Item C
    loop : Header C → Items C → Item C

  pub data Items (C : Type 0) : Type 0 where
    done : Items C
    next : Item C → Items C → Items C

module _ {C : Type 0} where
  abbrev pub with_kind : String → Header C → Header C
  with_kind kind h = record h { kind = kind }

  abbrev pub bare_header : String → Header C
  bare_header kind = record {
    kind = kind;
    target = "";
    method = "";
    args = "";
    condition = none;
    raw = kind;
  }

  abbrev mutual
    pub action_of : Item C → Action C
    action_of (plain h) = action h empty empty empty
    action_of (if_then h x xs others) =
        action (with_kind "if_block" h) (more (action_of x) (actions_of xs)) (actions_of others)
          empty
    action_of (if_fail h xs) = action (with_kind "if_fail_block" h) (actions_of xs) empty empty
    action_of (loop h xs) = action (with_kind "loop_block" h) empty empty (actions_of xs)

    pub actions_of : Items C → Actions C
    actions_of done = empty
    actions_of (next x xs) = more (action_of x) (actions_of xs)

  abbrev pub line : ℕ → Header C → Line C
  line indent h = record { number = 0; indent = indent; act = action h empty empty empty }

  -- The lines of a script at an indent, before further lines. The actions of a block stand one
  -- deeper, between its header and its end; an IF has an ELSE between its two lists.
  abbrev mutual
    pub print : ℕ → Item C → List (Line C) → List (Line C)
    print i (plain h) rest = line i h ∷ rest
    print i (if_then h x xs others) rest =
        line i (with_kind "if_block" h)
        ∷ print (suc i) x (
            print_all (suc i) xs (
              line i (bare_header "else_block")
              ∷ print_all (suc i) others (line i (bare_header "endif") ∷ rest)))
    print i (if_fail h xs) rest =
        line i (with_kind "if_fail_block" h)
        ∷ print_all (suc i) xs (line i (bare_header "end") ∷ rest)
    print i (loop h xs) rest =
        line i (with_kind "loop_block" h)
        ∷ print_all (suc i) xs (line i (bare_header "endloop") ∷ rest)

    pub print_all : ℕ → Items C → List (Line C) → List (Line C)
    print_all i done rest = rest
    print_all i (next x xs) rest = print i x (print_all i xs rest)

  -- the header of a standard action
  abbrev pub IsPlain : Header C → Type 0
  IsPlain h = (controls h.kind ≡ false) × ((h.kind == "else") ≡ false)

  abbrev mutual
    pub HasPlainLeaves : Item C → Type 0
    HasPlainLeaves (plain h) = IsPlain h
    HasPlainLeaves (if_then h x xs others) =
        HasPlainLeaves x × HavePlainLeaves xs × HavePlainLeaves others
    HasPlainLeaves (if_fail h xs) = HavePlainLeaves xs
    HasPlainLeaves (loop h xs) = HavePlainLeaves xs

    pub HavePlainLeaves : Items C → Type 0
    HavePlainLeaves done = Unit {0}
    HavePlainLeaves (next x xs) = HasPlainLeaves x × HavePlainLeaves xs

  pub next_indent-print :
      (i : ℕ) (x : Item C) (rest : List (Line C)) → next_indent (print i x rest) ≡ some i
  next_indent-print i (plain h) rest = refl
  next_indent-print i (if_then h x xs others) rest = refl
  next_indent-print i (if_fail h xs) rest = refl
  next_indent-print i (loop h xs) rest = refl
