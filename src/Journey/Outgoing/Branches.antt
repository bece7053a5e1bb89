-- ===== src/Journey/Outgoing/Branches.antt =====
-- What `validateExactBranches` checks: each label is the branch of an edge, and no other is.
use openjourney.Common.{
  ◌+◌, ◌≡◌, ◌≢◌, refl, sym, ap, ◌∙◌, subst, ◌⊎◌, inl, inr, true, false, List, [], ◌∷◌, map, String,
  eq_iff, arith, nat_eq, nat_eq_iff, contains, contains-In, In-contains, length, ok, err, guard,
  >>=-eq-ok, guard-eq-ok, Bool-cases, Result-cases, In, All, All-at, All-map, Distinct,
}
use openjourney.Journey.Graph.{Edge}
use openjourney.Journey.Outgoing.{
  fine, want_labels, delete, take_edges, validate_exact_branches, missing_label,
}
use openjourney.Journey.Outgoing.Delete.{In-delete, In_of_delete, delete-Distinct, length-delete}

-- The first loop: the labels are not empty and not repeated, and make the set.
record IsWanted (labels want out : List String) : Type 0 where
  named : All (λ l. l ≢ "") labels
  distinct : Distinct labels
  fresh : All (λ l. ¬ In l want) labels
  size : length out ≡ length labels + length want
  all : (l : String) → (In l labels ⊎ In l want) → In l out
  only : (l : String) → In l out → In l labels ⊎ In l want
  kept : Distinct want → Distinct out

IsWanted-cons :
    (label : String) (labels want out : List String)
    → label ≢ ""
    → ¬ In label want
    → IsWanted labels (label ∷ want) out
    → IsWanted (label ∷ labels) want out
IsWanted-cons label labels want out ne fresh ih = record {
  named = (ne, ih.named);
  distinct =
      (λ m. All-at (λ l. ¬ In l (label ∷ want)) label labels ih.fresh m (inl refl), ih.distinct);
  fresh = (fresh, All-map (λ l f m. f (inr m)) labels ih.fresh);
  size = omega (arith, ih.size);
  all = λ l m. elim m [
    | inl (inl same) ↦ ih.all l (inr (inl same))
    | inl (inr listed) ↦ ih.all l (inl listed)
    | inr before ↦ ih.all l (inr (inr before))
  ];
  only = λ l m. elim (ih.only l m) [
    | inl listed ↦ inl (inr listed)
    | inr (inl same) ↦ inl (inl same)
    | inr (inr before) ↦ inr before
  ];
  kept = λ d. ih.kept (fresh, d);
}

want_labels-IsWanted :
    (id : String) (want labels out : List String)
    → want_labels id want labels ≡ ok out
    → IsWanted labels want out
unfolding want_labels
want_labels-IsWanted id want [] out h =
    let same : want ≡ out = cc in
    subst (IsWanted [] want) same (record {
      named = tt;
      distinct = tt;
      fresh = tt;
      size = omega arith;
      all = λ l m. elim m [ inl none' ↦ absurd none' | inr m' ↦ m' ];
      only = λ l m. inr m;
      kept = λ d. d;
    })
want_labels-IsWanted id want (label ∷ labels) out h =
    let ne : label ≢ "" = ground (arith, eq_iff label "") in
    let absent : contains want label ≡ false = ground arith in
    let fresh : ¬ In label want = λ m. cc (absent, In-contains want label m) in
    let rest : want_labels id (label ∷ want) labels ≡ ok out = ground arith in
    IsWanted-cons label labels want out ne fresh
      (want_labels-IsWanted id (label ∷ want) labels out rest)

-- The second loop.
take_edges_sound :
    (id : String) (want : List String) (es : List Edge) (left : List String)
    → take_edges id want es ≡ ok left
    → ((l : String) → In l want → In l left ⊎ In l (map Edge.branch es))
      × ((e : Edge) → In e es → In e.branch want)
      × (Distinct want → length left + length es ≡ length want)
unfolding take_edges
take_edges_sound id want [] left h =
    let same : want ≡ left = cc in
    (λ l m. inl (subst (In l) same m), λ e m. absurd m, λ d. omega (arith, ap length same))
take_edges_sound id want (e ∷ es) left h =
    let listed : contains want e.branch ≡ true = ground arith in
    let rest : take_edges id (delete e.branch want) es ≡ ok left = ground arith in
    let (stays, within, count) = take_edges_sound id (delete e.branch want) es left rest in
    (
      λ l m. elim (In-delete e.branch want l m) [
        | inl taken ↦ inr (inl taken)
        | inr kept ↦ elim (stays l kept) [ inl in_left ↦ inl in_left | inr later ↦ inr (inr later) ]
      ],
      λ d m. elim m [
        | inl same ↦
            subst (λ x. In x want) (sym (ap Edge.branch same)) (contains-In want e.branch listed)
        | inr later ↦ In_of_delete e.branch want d.branch (within d later)
      ],
      λ d. omega (
        arith,
        count (delete-Distinct e.branch want d),
        length-delete e.branch want d (contains-In want e.branch listed),
      ),
    )

want_labels-ne-missing :
    (id : String) (want labels : List String) (label : String)
    → want_labels id want labels ≢ err (missing_label id label)
unfolding want_labels
want_labels-ne-missing id want [] label h = cc
want_labels-ne-missing id want (l ∷ labels) label h =
    ground (arith, want_labels-ne-missing id (l ∷ want) labels label)

take_edges-ne-missing :
    (id : String) (want : List String) (es : List Edge) (label : String)
    → take_edges id want es ≢ err (missing_label id label)
unfolding take_edges
take_edges-ne-missing id want [] label h = cc
take_edges-ne-missing id want (e ∷ es) label h =
    ground (arith, take_edges-ne-missing id (delete e.branch want) es label)

eq_nil_of_length : (xs : List String) → length xs ≡ 0 → xs ≡ []
eq_nil_of_length [] h = refl
eq_nil_of_length (x ∷ xs) h = absurd (omega arith)

-- The labels and the branches of the edges are the same texts, and no label is empty or repeated.
pub record HasExactly (edges : List Edge) (labels : List String) : Type 0 where
  pub named : All (λ l. l ≢ "") labels
  pub distinct : Distinct labels
  pub size : length edges ≡ length labels
  pub every : (l : String) → In l labels → In l (map Edge.branch edges)
  pub only : (e : Edge) → In e edges → In e.branch labels

module _ (id : String) (edges : List Edge) (labels : List String) where
  -- The two loops leave nothing of the set, if there are as many edges as labels.
  loops_HasExactly :
      (want left : List String)
      → length edges ≡ length labels
      → want_labels id [] labels ≡ ok want
      → take_edges id want edges ≡ ok left
      → (left ≡ []) × HasExactly edges labels
  loops_HasExactly want left same wanted taken =
      let w = want_labels-IsWanted id [] labels want wanted in
      let (stays, within, count) = take_edges_sound id want edges left taken in
      let nothing : left ≡ [] =
        eq_nil_of_length left (omega (arith, same, w.size, count (w.kept tt))) in
      (
        nothing,
        record {
          named = w.named;
          distinct = w.distinct;
          size = same;
          every = λ l m. elim (stays l (w.all l (inl m))) [
            | inl in_left ↦ absurd (subst (In l) nothing in_left)
            | inr branch ↦ branch
          ];
          only = λ e m. elim (w.only e.branch (within e m)) [
            | inl listed ↦ listed
            | inr nowhere ↦ absurd nowhere
          ];
        },
      )

  pub validate_exact_branches-HasExactly :
      validate_exact_branches id edges labels ≡ fine → HasExactly edges labels
  unfolding validate_exact_branches
  validate_exact_branches-HasExactly h =
      let (_, counted, h') = >>=-eq-ok (guard (nat_eq (length edges) (length labels)) _) _ h in
      let (want, wanted, h'') = >>=-eq-ok (want_labels id [] labels) _ h' in
      let (left, taken, _) = >>=-eq-ok (take_edges id want edges) _ h'' in
      let same = (nat_eq_iff _ _).0 (guard-eq-ok _ _ counted) in
      (loops_HasExactly want left same wanted taken).1

  -- Where as many edges leave as there are labels, and each label is wanted and each branch taken,
  -- nothing is left over: the message on a missing label is never given.
  pub validate_exact_branches-ne-missing :
      (label : String) → validate_exact_branches id edges labels ≢ err (missing_label id label)
  unfolding validate_exact_branches
  validate_exact_branches-ne-missing label h =
      elim (Bool-cases (nat_eq (length edges) (length labels))) [
        | inr differ ↦ ground arith
        | inl counted ↦ elim (Result-cases (want_labels id [] labels)) [
          | inr (e, refused) ↦
              want_labels-ne-missing id [] labels label (refused ∙ ap err (ground arith))
          | inl (want, wanted) ↦ elim (Result-cases (take_edges id want edges)) [
            | inr (e, refused) ↦
                take_edges-ne-missing id want edges label (refused ∙ ap err (ground arith))
            | inl (left, taken) ↦
                let same = (nat_eq_iff (length edges) (length labels)).0 counted in
                let nothing = (loops_HasExactly want left same wanted taken).0 in ground arith
          ]
        ]
      ]
