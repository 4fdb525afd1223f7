-- ===== src/State/Broadcast.antt =====
-- `StateManager.broadcast_event` of oqlos/core/state.py. A connection is told by a number. While the
-- loop awaits one send, the endpoint of oqlos/api/main.py may list a new connection, or take out
-- one that has closed.
pub mod Left
use oqlos.Base.{
  ℕ, zero, suc, ◌+◌, Bool, true, false, ◌||◌, Option, none, some, List, [], ◌∷◌, ◌++◌, nat_eq,
  if◌then◌else◌, run,
}
use oqlos.State.{StateManager}

-- list.remove(ws): the first occurrence
unfoldable pub remove : List ℕ → ℕ → List ℕ
remove [] ws = []
remove (x ∷ xs) ws = let rest = remove xs ws in if nat_eq x ws then xs else x ∷ rest

abbrev pub is_listed : List ℕ → ℕ → Bool
is_listed [] ws = false
is_listed (x ∷ xs) ws = nat_eq x ws || is_listed xs ws

pub data Change : Type 0 where
  connected disconnected : ℕ → Change

-- One send: whether `send_json` returns, and what the endpoint does meanwhile
pub record Sent : Type 0 where
  pub returns : Bool
  pub meanwhile : List Change

-- The endpoint takes a connection out only if it is listed.
unfoldable pub changed : List ℕ → Change → List ℕ
unfolding remove
changed wss (connected ws) = wss ++ ws ∷ []
changed wss (disconnected ws) = remove wss ws

-- the item that the loop comes to, by its place in the list as that is now
unfoldable pub nth : List ℕ → ℕ → Option ℕ
nth [] i = none
nth (x ∷ xs) zero = some x
nth (x ∷ xs) (suc i) = nth xs i

-- The loop over the connections, one outcome for each send; where the outcomes end, so does it.
-- It gives the connections that are listed then, and those that were lost.
unfoldable pub send_each : List Sent → ℕ → List ℕ → List ℕ → List ℕ × List ℕ
unfolding changed nth
send_each [] i wss lost = (wss, lost)
send_each (sent ∷ later) i wss lost = elim (nth wss i) [
  | none ↦ (wss, lost)
  | some ws ↦
      send_each later (i + 1) (run changed wss sent.meanwhile)
        (if sent.returns then lost else lost ++ ws ∷ [])
]

-- `list.remove` raises a ValueError for a connection that is no longer listed: `false`.
unfoldable pub remove_each : List ℕ → List ℕ → Bool × List ℕ
unfolding remove
remove_each wss [] = (true, wss)
remove_each wss (ws ∷ lost) =
    let rest = remove_each (remove wss ws) lost in if is_listed wss ws then rest else (false, wss)

-- `false` where it raises
unfoldable pub broadcast_event : {F : Type 0} → List Sent → StateManager F → Bool × StateManager F
unfolding send_each remove_each
broadcast_event sends m =
    let (wss, lost) = send_each sends 0 m.websocket_connections [] in
    let (returns, left) = remove_each wss lost in
    (returns, record m { websocket_connections = left })
