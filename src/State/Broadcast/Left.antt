-- ===== src/State/Broadcast/Left.antt =====
-- Which connections are left after a broadcast that nothing interrupts.
use oqlos.Base.{
  ℕ, ◌+◌, ◌≡◌, refl, sym, ap, ◌∙◌, Bool, true, false, ◌||◌, some, List, [], ◌∷◌, ◌++◌, arith,
  nat_eq, if◌then◌else◌, length,
}
use mathlib.Core.List.{append-nil, append_assoc}
use oqlos.State.{StateManager}
use oqlos.State.Broadcast.{remove, is_listed, Sent, nth, send_each, remove_each, broadcast_event}

-- A connection, with whether its send returns
abbrev pub listed : List (ℕ × Bool) → List ℕ
listed [] = []
listed ((ws, returns) ∷ sent) = ws ∷ listed sent

abbrev pub uninterrupted : List (ℕ × Bool) → List Sent
uninterrupted [] = []
uninterrupted ((ws, returns) ∷ sent) =
    record { returns = returns; meanwhile = [] } ∷ uninterrupted sent

-- the connections whose send returned, or raised
abbrev pub with_outcome : Bool → List (ℕ × Bool) → List ℕ
with_outcome b [] = []
with_outcome true ((ws, true) ∷ sent) = ws ∷ with_outcome true sent
with_outcome true ((ws, false) ∷ sent) = with_outcome true sent
with_outcome false ((ws, true) ∷ sent) = with_outcome false sent
with_outcome false ((ws, false) ∷ sent) = ws ∷ with_outcome false sent

-- No connection is listed twice.
abbrev pub AreDistinct : List ℕ → Type 0
AreDistinct [] = Unit {0}
AreDistinct (ws ∷ wss) = (is_listed wss ws ≡ false) × AreDistinct wss

nth_here :
    (before : List ℕ) (ws : ℕ) (wss : List ℕ) → nth (before ++ ws ∷ wss) (length before) ≡ some ws
unfolding nth
nth_here [] ws wss = refl
nth_here (x ∷ before) ws wss = nth_here before ws wss

length_snoc : (before : List ℕ) (ws : ℕ) → length (before ++ ws ∷ []) ≡ length before + 1
length_snoc [] ws = refl
length_snoc (x ∷ before) ws = ground (arith, length_snoc before ws)

send_each_lem :
    (sent : List (ℕ × Bool)) (before lost : List ℕ) (i : ℕ) (wss : List ℕ)
    → i ≡ length before
    → wss ≡ before ++ listed sent
    → send_each (uninterrupted sent) i wss lost ≡ (wss, lost ++ with_outcome false sent)
unfolding send_each
send_each_lem [] before lost i wss e e' = ap (λ l. (wss, l)) (sym (append-nil lost))
send_each_lem ((ws, returns) ∷ sent) before lost i wss e e' =
    let here : nth wss i ≡ some ws = rw (e', e) (nth_here before ws (listed sent)) in
    let next : i + 1 ≡ length (before ++ ws ∷ []) = ground (arith, e, length_snoc before ws) in
    let same : wss ≡ (before ++ ws ∷ []) ++ listed sent =
      e' ∙ sym (append_assoc before (ws ∷ []) (listed sent)) in
    let later : (lost' : List ℕ)
        → send_each (uninterrupted sent) (i + 1) wss lost'
          ≡ (wss, lost' ++ with_outcome false sent) =
      λ lost'. send_each_lem sent (before ++ ws ∷ []) lost' (i + 1) wss next same in
    rw (here, send_each)
      (elim returns
        as (λ b.
          send_each (uninterrupted sent) (i + 1) wss (if b then lost else lost ++ ws ∷ [])
          ≡ (wss, lost ++ with_outcome false ((ws, b) ∷ sent))) [
            | true ↦ later lost
            | false ↦
                later (lost ++ ws ∷ [])
                ∙ ap (λ l. (wss, l)) (append_assoc lost (ws ∷ []) (with_outcome false sent))
          ])

remove_here :
    (kept wss : List ℕ) (ws : ℕ)
    → is_listed kept ws ≡ false
    → remove (kept ++ ws ∷ wss) ws ≡ kept ++ wss
unfolding remove
remove_here [] wss ws h = ground arith
remove_here (x ∷ kept) wss ws h = ground (arith, h, remove_here kept wss ws)

listed_here : (kept wss : List ℕ) (ws : ℕ) → is_listed (kept ++ ws ∷ wss) ws ≡ true
listed_here [] wss ws = ground arith
listed_here (x ∷ kept) wss ws = ground (arith, listed_here kept wss ws)

-- No connection of the second list is in the first.
abbrev Apart : List ℕ → List ℕ → Type 0
Apart kept [] = Unit {0}
Apart kept (ws ∷ wss) = (is_listed kept ws ≡ false) × Apart kept wss

Apart-nil : (wss : List ℕ) → Apart [] wss
Apart-nil [] = tt
Apart-nil (ws ∷ wss) = (refl, Apart-nil wss)

is_listed-snoc :
    (kept : List ℕ) (ws x : ℕ) → is_listed (kept ++ ws ∷ []) x ≡ (is_listed kept x || nat_eq ws x)
is_listed-snoc [] ws x = ground arith
is_listed-snoc (y ∷ kept) ws x = ground (arith, is_listed-snoc kept ws x)

Apart-snoc :
    (kept wss : List ℕ) (ws : ℕ)
    → Apart kept wss
    → is_listed wss ws ≡ false
    → Apart (kept ++ ws ∷ []) wss
Apart-snoc kept [] ws apart fresh = tt
Apart-snoc kept (x ∷ wss) ws (apart, aparts) fresh = (
  ground (arith, is_listed-snoc kept ws x, apart, fresh),
  Apart-snoc kept wss ws aparts (ground (arith, fresh)),
)

remove_each_lem :
    (sent : List (ℕ × Bool)) (kept : List ℕ)
    → AreDistinct (listed sent)
    → Apart kept (listed sent)
    → remove_each (kept ++ listed sent) (with_outcome false sent)
      ≡ (true, kept ++ with_outcome true sent)
unfolding remove_each
remove_each_lem [] kept d apart = refl
remove_each_lem ((ws, true) ∷ sent) kept (fresh, d) (_, aparts) =
    let later =
      remove_each_lem sent (kept ++ ws ∷ []) d (Apart-snoc kept (listed sent) ws aparts fresh) in
    ap (λ l. remove_each l (with_outcome false sent))
      (sym (append_assoc kept (ws ∷ []) (listed sent)))
    ∙ later
    ∙ ap (λ l. (true, l)) (append_assoc kept (ws ∷ []) (with_outcome true sent))
remove_each_lem ((ws, false) ∷ sent) kept (fresh, d) (apart, aparts) =
    rw (listed_here kept (listed sent) ws, remove_here kept (listed sent) ws apart)
      (remove_each_lem sent kept d aparts)

-- Where no connection is listed twice, and none comes or goes while the event is sent, a broadcast
-- returns, and leaves exactly the connections whose send returned, in their order; nothing else of
-- the manager changes.
pub broadcast_event-uninterrupted :
    {F : Type 0} (m : StateManager F) (sent : List (ℕ × Bool))
    → m.websocket_connections ≡ listed sent
    → AreDistinct (listed sent)
    → broadcast_event (uninterrupted sent) m
      ≡ (true, record m { websocket_connections = with_outcome true sent })
unfolding broadcast_event
broadcast_event-uninterrupted m sent e d =
    let sends = send_each_lem sent [] [] 0 m.websocket_connections refl e in
    rw (sends, e, remove_each_lem sent [] d (Apart-nil (listed sent))) refl
