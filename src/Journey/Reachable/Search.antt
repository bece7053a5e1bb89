-- ===== src/Journey/Reachable/Search.antt =====
-- The search marks exactly the nodes that a path of edges leads to, and ends within its fuel.
use mathlib.Core.Logic.{∥∥₁_elim}
use mathlib.Core.Bool.{So-prop}
use openjourney.Common.{
  ℕ, zero, suc, ◌+◌, ◌≤◌, ◌<◌, ◌≡◌, refl, sym, ap, ◌∙◌, subst, ◌↔◌, ◌⊎◌, inl, inr, true, false,
  List, [], ◌∷◌, some, String, arith, if◌then◌else◌, contains, contains-In, In-contains, length,
  length-append, In, Bool-cases, eq_refl,
}
use openjourney.Journey.Graph.{Edge, outgoing}
use openjourney.Journey.Reachable.{Bfs, mark, visit, search, reachable_nodes}
use openjourney.Journey.Reachable.Paths.{
  Reach, here, step, In-outgoing, mark_old, mark_fresh, visit_keeps, visit_targets, visit_new,
  visit_queued,
}

-- The invariant of the search.
record Inv (edges : List Edge) (entry : String) (r q : List String) : Type 0 where
  pub source : In entry r
  pub queued : (v : String) → In v q → In v r
  pub sound : (v : String) → In v r → Reach edges entry v
  pub closed : (e : Edge) → In e edges → In e.from r → In e.from q ⊎ In e.to r

module _ (edges : List Edge) (entry : String) where
  Inv-start : Inv edges entry (entry ∷ []) (entry ∷ [])
  Inv-start = record {
    source = inl refl;
    queued = λ v m. m;
    sound =
        λ v m. elim m [ inl same ↦ subst (Reach edges entry) (sym same) here | inr n ↦ absurd n ];
    closed = λ e listed m. inl m;
  }

  Inv-visit :
      (r : List String) (u : String) (q : List String)
      → Inv edges entry r (u ∷ q)
      → let s = visit (outgoing edges u) (record { reachable = r; queue = q }) in
        Inv edges entry s.reachable s.queue
  Inv-visit r u q h =
      let before : Bfs = record { reachable = r; queue = q } in
      let out = outgoing edges u in
      record {
        source = (visit_keeps out before entry).0 h.source;
        queued = visit_queued out before (λ v m. h.queued v (inr m));
        sound = λ v m. elim (visit_new out before v m) [
          | inl old ↦ h.sound v old
          | inr ((e, listed, target), _) ↦
              let (edge, source) = (In-outgoing edges u e).0 listed in
              step (h.sound u (h.queued u (inl refl))) e edge source target
        ];
        closed = λ e listed m. elim (visit_new out before e.from m) [
          | inr (_, queued) ↦ inl queued
          | inl old ↦ elim (h.closed e listed old) [
            | inl (inl current) ↦
                inr (visit_targets out before e ((In-outgoing edges u e).1 (listed, current)))
            | inl (inr waiting) ↦ inl ((visit_keeps out before e.from).1 waiting)
            | inr marked ↦ inr ((visit_keeps out before e.to).0 marked)
          ]
        ];
      }

  search-Inv :
      (fuel : ℕ) (r q marks : List String)
      → Inv edges entry r q
      → search fuel edges r q ≡ some marks
      → Inv edges entry marks []
  unfolding search
  search-Inv fuel r [] marks h e =
      let same : r ≡ marks = cc in subst (λ l. Inv edges entry l []) same h
  search-Inv zero r (u ∷ q) marks h e = cc
  search-Inv (suc fuel) r (u ∷ q) marks h e =
      let s = visit (outgoing edges u) (record { reachable = r; queue = q }) in
      search-Inv fuel s.reachable s.queue marks (Inv-visit r u q h) e

  Inv-complete :
      {marks : List String}
      → Inv edges entry marks []
      → {v : String} → Reach edges entry v
      → In v marks
  Inv-complete h here = h.source
  Inv-complete {marks} h (step {u} {v} path e listed source target) =
      elim (h.closed e listed (subst (λ x. In x marks) (sym source) (Inv-complete h path))) [
        | inl nowhere ↦ absurd nowhere
        | inr marked ↦ subst (λ x. In x marks) target marked
      ]

-- The edges whose target is not marked.
abbrev unmarked : List String → List Edge → ℕ
unmarked r [] = 0
unmarked r (e ∷ es) = let rest = unmarked r es in if contains r e.to then rest else suc rest

unmarked_push_le :
    (t : String) (r : List String) (es : List Edge) → unmarked (t ∷ r) es ≤ unmarked r es
unfolding contains
unmarked_push_le t r [] = omega arith
unmarked_push_le t r (e ∷ es) = ground (arith, unmarked_push_le t r es)

unmarked_push_lt :
    (t : String) (r : List String) (es : List Edge) (e : Edge)
    → In e es
    → e.to ≡ t
    → contains r t ≡ false
    → unmarked (t ∷ r) es < unmarked r es
unfolding contains
unmarked_push_lt t r [] e m target fresh = absurd m
unmarked_push_lt t r (d ∷ es) e (inl same) target fresh =
    let goes : d.to ≡ t = ap Edge.to (sym same) ∙ target in
    let seen = eq_refl t in ground (arith, unmarked_push_le t r es)
unmarked_push_lt t r (d ∷ es) e (inr m) target fresh =
    ground (arith, unmarked_push_lt t r es e m target fresh)

abbrev work : List Edge → Bfs → ℕ
work edges s = length s.queue + unmarked s.reachable edges

work-mark :
    (edges : List Edge) (s : Bfs) (e : Edge) → In e edges → work edges (mark s e) ≤ work edges s
work-mark edges s e listed = elim (Bool-cases (contains s.reachable e.to)) [
  | inl old ↦ rw (mark_old s e old) (omega arith)
  | inr fresh ↦ rw (mark_fresh s e fresh) (
      omega (
        arith,
        length-append s.queue (e.to ∷ []),
        unmarked_push_lt e.to s.reachable edges e listed refl fresh,
      ))
]

work-visit :
    (edges es : List Edge) (s : Bfs)
    → ((e : Edge) → In e es → In e edges)
    → work edges (visit es s) ≤ work edges s
unfolding visit
work-visit edges [] s h = omega arith
work-visit edges (e ∷ es) s h = omega (
  arith,
  work-mark edges s e (h e (inl refl)),
  work-visit edges es (mark s e) (λ d m. h d (inr m)),
)

search_total :
    (fuel : ℕ) (edges : List Edge) (r q : List String)
    → length q + unmarked r edges ≤ fuel
    → (marks : List String) × (search fuel edges r q ≡ some marks)
unfolding search
search_total fuel edges r [] h = (r, refl)
search_total zero edges r (u ∷ q) h = absurd (omega arith)
search_total (suc fuel) edges r (u ∷ q) h =
    let before : Bfs = record { reachable = r; queue = q } in
    let s = visit (outgoing edges u) before in
    search_total fuel edges s.reachable s.queue (
      omega (
        arith,
        work-visit edges (outgoing edges u) before (λ e m. ((In-outgoing edges u e).0 m).0),
      ))

unmarked-le : (r : List String) (es : List Edge) → unmarked r es ≤ length es
unmarked-le r [] = omega arith
unmarked-le r (e ∷ es) = ground (arith, unmarked-le r es)

-- The search ends within its fuel, one round for each edge and one for the entry, and marks exactly
-- the nodes that a path of edges leads to from the entry.
pub reachable_nodes-Reach :
    (entry : String) (edges : List Edge)
    → (marks : List String) × (reachable_nodes entry edges ≡ some marks)
      × ((v : String) → (contains marks v ≡ true) ↔ ∥ Reach edges entry v ∥₁)
unfolding reachable_nodes
reachable_nodes-Reach entry edges =
    let (marks, ends) =
      search_total (suc (length edges)) edges (entry ∷ []) (entry ∷ [])
        (omega (arith, unmarked-le (entry ∷ []) edges)) in
    let inv =
      search-Inv edges entry (suc (length edges)) (entry ∷ []) (entry ∷ []) marks
        (Inv-start edges entry) ends in
    (
      marks,
      ends,
      λ v. (
        λ m. ∣ inv.sound v (contains-In marks v m) ∣₁,
        λ p. ∥∥₁_elim p (So-prop _) (λ w. In-contains marks v (Inv-complete edges entry inv w)),
      ),
    )
