-- ===== src/Journey/Reachable/Paths.antt =====
-- The paths of edges from a node, and what one round of the search does to the marks.
use openjourney.Common.{
  ◌≡◌, refl, sym, ap, ◌↔◌, ◌⊎◌, inl, inr, true, false, List, [], ◌∷◌, String, arith, contains,
  contains-In, In, In-append_left, In-append_right, In-append_cases, Bool-cases, eq_iff,
}
use openjourney.Journey.Graph.{Edge, outgoing}
use openjourney.Journey.Reachable.{Bfs, push, mark, visit}

-- The nodes that a path of edges leads to.
pub data Reach (edges : List Edge) (entry : String) : String → Type 0 where
  here : Reach edges entry entry
  step :
      {u v : String}
      → Reach edges entry u
      → (e : Edge) → In e edges
      → e.from ≡ u
      → e.to ≡ v
      → Reach edges entry v

pub In-outgoing :
    (edges : List Edge) (id : String) (e : Edge)
    → In e (outgoing edges id) ↔ (In e edges × (e.from ≡ id))
unfolding outgoing
In-outgoing [] id e = (λ m. absurd m, λ m. absurd m.0)
In-outgoing (d ∷ edges) id e = ground (arith, eq_iff d.from id, In-outgoing edges id e)

-- What one edge does to the marks and the queue.
module _ (s : Bfs) (e : Edge) where
  pub mark_old : contains s.reachable e.to ≡ true → mark s e ≡ s
  unfolding mark
  mark_old old = rw old

  pub mark_fresh : contains s.reachable e.to ≡ false → mark s e ≡ push s e.to
  unfolding mark
  mark_fresh fresh = rw fresh

  mark_keeps :
      (v : String)
      → (In v s.reachable → In v (mark s e).reachable) × (In v s.queue → In v (mark s e).queue)
  mark_keeps v = elim (Bool-cases (contains s.reachable e.to)) [
    | inl old ↦ rw (mark_old old) (λ m. m, λ m. m)
    | inr fresh ↦ rw (mark_fresh fresh) (inr, In-append_left v s.queue (e.to ∷ []))
  ]

  mark_target : In e.to (mark s e).reachable
  mark_target = elim (Bool-cases (contains s.reachable e.to)) [
    | inl old ↦ rw (mark_old old) (contains-In s.reachable e.to old)
    | inr fresh ↦ rw (mark_fresh fresh) (inl refl)
  ]

  mark_new :
      (v : String)
      → In v (mark s e).reachable
      → In v s.reachable ⊎ ((e.to ≡ v) × In v (mark s e).queue)
  mark_new v = elim (Bool-cases (contains s.reachable e.to)) [
    | inl old ↦ rw (mark_old old) inl
    | inr fresh ↦ rw (mark_fresh fresh) (elim [
      | inl same ↦ inr (sym same, In-append_right v s.queue (e.to ∷ []) (inl same))
      | inr m ↦ inl m
    ])
  ]

  mark_queued :
      ((v : String) → In v s.queue → In v s.reachable)
      → (v : String) → In v (mark s e).queue
      → In v (mark s e).reachable
  mark_queued h v = elim (Bool-cases (contains s.reachable e.to)) [
    | inl old ↦ rw (mark_old old) (h v)
    | inr fresh ↦ rw (mark_fresh fresh) (λ m. elim (In-append_cases v s.queue (e.to ∷ []) m) [
      | inl before ↦ inr (h v before)
      | inr (inl same) ↦ inl same
      | inr (inr nowhere) ↦ absurd nowhere
    ])
  ]

-- What the loop over the edges of a node does.
pub visit_keeps :
    (es : List Edge) (s : Bfs) (v : String)
    → (In v s.reachable → In v (visit es s).reachable) × (In v s.queue → In v (visit es s).queue)
unfolding visit
visit_keeps [] s v = (λ m. m, λ m. m)
visit_keeps (e ∷ es) s v =
    let first = mark_keeps s e v in
    let later = visit_keeps es (mark s e) v in (λ m. later.0 (first.0 m), λ m. later.1 (first.1 m))

pub visit_targets : (es : List Edge) (s : Bfs) (e : Edge) → In e es → In e.to (visit es s).reachable
unfolding visit
visit_targets [] s e m = absurd m
visit_targets (d ∷ es) s e (inl same) =
    (visit_keeps es (mark s d) e.to).0 (rw (ap Edge.to same) (mark_target s d))
visit_targets (d ∷ es) s e (inr m) = visit_targets es (mark s d) e m

-- A mark is old, or is put on the target of an edge; and what is marked anew is queued.
pub visit_new :
    (es : List Edge) (s : Bfs) (v : String)
    → In v (visit es s).reachable
    → In v s.reachable ⊎ (((e : Edge) × In e es × (e.to ≡ v)) × In v (visit es s).queue)
unfolding visit
visit_new [] s v m = inl m
visit_new (d ∷ es) s v m = elim (visit_new es (mark s d) v m) [
  | inr ((e, listed, target), queued) ↦ inr ((e, inr listed, target), queued)
  | inl before ↦ elim (mark_new s d v before) [
    | inl old ↦ inl old
    | inr (target, queued) ↦ inr ((d, inl refl, target), (visit_keeps es (mark s d) v).1 queued)
  ]
]

pub visit_queued :
    (es : List Edge) (s : Bfs)
    → ((v : String) → In v s.queue → In v s.reachable)
    → (v : String) → In v (visit es s).queue
    → In v (visit es s).reachable
unfolding visit
visit_queued [] s h = h
visit_queued (d ∷ es) s h = visit_queued es (mark s d) (mark_queued s d h)
