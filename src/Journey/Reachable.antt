-- ===== src/Journey/Reachable.antt =====
-- `reachableNodes` of internal/journey/validate.go: a breadth-first search from the entry node.
-- The loop takes fuel; `none` means that it ran out. `Reachable.Search` proves that one round for
-- each edge and one for the entry are enough.
pub mod Paths
pub mod Search
use openjourney.Common.{
  ℕ, zero, suc, Bool, true, false, List, [], ◌∷◌, ◌++◌, Option, none, some, String, if◌then◌else◌,
  contains, length,
}
use openjourney.Journey.Graph.{Edge, outgoing}

-- `reachable` is the set of ids that are marked.
pub record Bfs : Type 0 where
  pub reachable : List String
  pub queue : List String

abbrev pub push : Bfs → String → Bfs
push s id = record { reachable = id ∷ s.reachable; queue = s.queue ++ id ∷ [] }

-- One edge from the current node.
pub mark : Bfs → Edge → Bfs
mark s e = if contains s.reachable e.to then s else push s e.to

pub visit : List Edge → Bfs → Bfs
visit [] s = s
visit (e ∷ es) s = visit es (mark s e)

-- The loop over the queue; a round takes the current node off its front.
pub search : ℕ → List Edge → List String → List String → Option (List String)
search fuel edges reachable [] = some reachable
search zero edges reachable (current ∷ queue) = none
search (suc fuel) edges reachable (current ∷ queue) =
    let s = visit (outgoing edges current) (record { reachable = reachable; queue = queue }) in
    search fuel edges s.reachable s.queue

-- `reachableNodes`: the ids that are marked in the end.
unfoldable pub reachable_nodes : String → List Edge → Option (List String)
unfolding search visit mark
reachable_nodes entry edges = search (suc (length edges)) edges (entry ∷ []) (entry ∷ [])
