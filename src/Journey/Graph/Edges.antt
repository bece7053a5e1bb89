-- ===== src/Journey/Graph/Edges.antt =====
-- The edge that `findNextNode` follows.
use openjourney.Common.{
  ◌≡◌, refl, sym, ap, ◌∙◌, inl, inr, ◌&&◌, List, [], ◌∷◌, some, String, ◌==◌, eq_iff, arith, In,
  Bool-cases, and-eq-true,
}
use openjourney.Journey.Graph.{Node, Edge, Graph, find_edge}

-- An edge of the graph goes from the node to the node with the id.
abbrev pub IsTarget : Graph → Node → String → Type 0
IsTarget g n to = (e : Edge) × In e g.edges × (e.from ≡ n.id) × (e.to ≡ to)

pub find_edge-target :
    (es : List Edge) (id branch to : String)
    → find_edge es id branch ≡ some to
    → (e : Edge) × In e es × (e.from ≡ id) × (e.to ≡ to)
unfolding find_edge
find_edge-target [] id branch to h = cc
find_edge-target (e ∷ es) id branch to h = elim (Bool-cases (e.from == id && e.branch == branch)) [
  | inl hit ↦ (e, inl refl, (eq_iff _ _).0 (and-eq-true _ _ hit).0, ground arith)
  | inr miss ↦
      let (d, listed, from, target) = find_edge-target es id branch to (ground arith) in
      (d, inr listed, from, target)
]

-- An edge with the branch leaves the node.
abbrev pub Offers : Graph → Node → String → Type 0
Offers g n branch = (e : Edge) × In e g.edges × (e.from ≡ n.id) × (e.branch ≡ branch)

pub find_edge-finds :
    (es : List Edge) (e : Edge) (id branch : String)
    → In e es
    → e.from ≡ id
    → e.branch ≡ branch
    → (to : String) × (find_edge es id branch ≡ some to)
unfolding find_edge
find_edge-finds [] e id branch m from label = absurd m
find_edge-finds (d ∷ es) e id branch m from label =
    elim (Bool-cases (d.from == id && d.branch == branch)) [
      | inl hit ↦ (d.to, rw hit refl)
      | inr miss ↦ elim m [
        | inl same ↦
            let from' : d.from ≡ id = sym (ap Edge.from same) ∙ from in
            let label' : d.branch ≡ branch = sym (ap Edge.branch same) ∙ label in
            absurd (ground (arith, eq_iff d.from id, eq_iff d.branch branch))
        | inr later ↦
            let (to, found) = find_edge-finds es e id branch later from label in (to, rw miss found)
      ]
    ]
