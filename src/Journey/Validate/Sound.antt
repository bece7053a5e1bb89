-- ===== src/Journey/Validate/Sound.antt =====
-- What a graph that `Validate` accepts is like.
use openjourney.Common.{
  ℕ, suc, ◌+◌, ◌≡◌, ◌≢◌, refl, sym, subst, ◌⊎◌, inl, inr, true, false, not, ◌&&◌, List, [], ◌∷◌,
  map, Option, some, String, ◌==◌, eq_iff, arith, nat_eq, nat_eq_iff, if◌then◌else◌, is_empty,
  contains, contains-In, In-contains, ok, ◌>>=◌, guard, >>=-eq-ok, guard-eq-ok, Bool-cases, In, All,
  All-map, Distinct, and-eq-true,
}
use openjourney.Common.Int.{ℤ}
use openjourney.Journey.Graph.{Node, Edge, Graph, node_type, is_entry, is_exit, outgoing}
use openjourney.Journey.Config.{NodeConfig, decode_config}
use openjourney.Journey.Reachable.{reachable_nodes}
use openjourney.Journey.Reachable.Search.{reachable_nodes-Reach}
use openjourney.Journey.Reachable.Paths.{Reach}
use openjourney.Journey.Outgoing.{not_the_entry, Check, fine, config_of, validate_outgoing}
use openjourney.Journey.Validate.{
  entry_checks, check_entry, check_node, count_entry, durations_as, check_nodes, check_edges,
  check_outgoing, check_reachable, find_exit, check_marks, validate,
}

-- The number of entry nodes.
abbrev pub entries : List Node → ℕ
entries [] = 0
entries (n ∷ ns) = if is_entry (node_type n.type) then suc (entries ns) else entries ns

module _ (parse_duration : String → Option ℤ) (entry_id : String) where
  -- What the loop over the nodes asks of a node by itself.
  pub record IsGoodNode (n : Node) : Type 0 where
    pub named : n.id ≢ ""
    pub decodes : (c : NodeConfig) × (decode_config n ≡ ok c)
    pub entry : check_entry entry_id n ≡ fine
    pub durations : durations_as parse_duration (node_type n.type) n ≡ fine

  config_of-decodes : (n : Node) {c : NodeConfig} → config_of n ≡ ok c → decode_config n ≡ ok c
  config_of-decodes n h = ground arith

  check_node-IsGoodNode :
      (seen : List String) (n : Node)
      → check_node parse_duration entry_id seen n ≡ fine
      → IsGoodNode n × (contains seen n.id ≡ false)
  unfolding check_node
  check_node-IsGoodNode seen n h =
      let (_, named, h1) = >>=-eq-ok (guard (not (is_empty n.id)) _) _ h in
      let (_, fresh, h2) = >>=-eq-ok (guard (not (contains seen n.id)) _) _ h1 in
      let (c, decodes, h3) = >>=-eq-ok (config_of n) _ h2 in
      let (_, entry, durations) = >>=-eq-ok (check_entry entry_id n) _ h3 in
      (
        record {
          named = ground (arith, eq_iff n.id "", guard-eq-ok _ _ named);
          decodes = (c, config_of-decodes n decodes);
          entry = entry;
          durations = durations;
        },
        ground (arith, guard-eq-ok _ _ fresh),
      )

  check_entry-named :
      (n : Node)
      → check_entry entry_id n ≡ fine
      → is_entry (node_type n.type) ≡ true
      → n.id ≡ entry_id
  unfolding check_entry
  check_entry-named n h e =
      let body : Check (Unit {0}) = config_of n >>= entry_checks entry_id n in
      let named_first : Check (Unit {0}) = guard (n.id == entry_id) (not_the_entry n.id) in
      let h' : (named_first >>= λ _. body) ≡ fine = rw e at h in
      let (_, named, _) = >>=-eq-ok named_first (λ _. body) h' in
      (eq_iff n.id entry_id).0 (guard-eq-ok _ _ named)

  -- What the loop over the nodes returns, if it returns.
  record IsChecked (seen : List String) (count : ℕ) (ns : List Node) (ids : List String) (total : ℕ)
      : Type 0 where
    good : All IsGoodNode ns
    distinct : Distinct (map Node.id ns)
    fresh : All (λ n. ¬ In n.id seen) ns
    listed : (id : String) → In id ids → In id seen ⊎ In id (map Node.id ns)
    counted : total ≡ count + entries ns

  not_In_of_fresh :
      (seen : List String) (id : String) (ns : List Node)
      → All (λ n. ¬ In n.id (id ∷ seen)) ns
      → ¬ In id (map Node.id ns)
  not_In_of_fresh seen id [] f m = m
  not_In_of_fresh seen id (n ∷ ns) (f, fs) (inl same) = f (inl (sym same))
  not_In_of_fresh seen id (n ∷ ns) (f, fs) (inr later) = not_In_of_fresh seen id ns fs later

  IsChecked-cons :
      {seen : List String} {count : ℕ} {n : Node} {ns : List Node} {ids : List String} {total : ℕ}
      → IsGoodNode n
      → ¬ In n.id seen
      → IsChecked (n.id ∷ seen) (count_entry n count) ns ids total
      → IsChecked seen count (n ∷ ns) ids total
  IsChecked-cons {seen} {count} {n} {ns} good fresh c = record {
    good = (good, c.good);
    distinct = (id-not-later, c.distinct);
    fresh = (fresh, All-map (λ m f later. f (inr later)) ns c.fresh);
    listed = λ id m. elim (c.listed id m) [
      | inl (inl same) ↦ inr (inl same)
      | inl (inr before) ↦ inl before
      | inr later ↦ inr (inr later)
    ];
    counted = ground (arith, c.counted);
  }
    where
      id-not-later : ¬ In n.id (map Node.id ns)
      id-not-later = not_In_of_fresh seen n.id ns c.fresh

  check_nodes-IsChecked :
      (seen : List String) (count : ℕ) (ns : List Node) (ids : List String) (total : ℕ)
      → check_nodes parse_duration entry_id seen count ns ≡ ok (ids, total)
      → IsChecked seen count ns ids total
  unfolding check_nodes
  check_nodes-IsChecked seen count [] ids total h =
      let same : seen ≡ ids = cc in
      record {
        good = tt;
        distinct = tt;
        fresh = tt;
        listed = λ id m. inl (subst (In id) (sym same) m);
        counted = ground arith;
      }
  check_nodes-IsChecked seen count (n ∷ ns) ids total h =
      let (_, first, rest) =
        >>=-eq-ok (check_node parse_duration entry_id seen n)
          (λ _. check_nodes parse_duration entry_id (n.id ∷ seen) (count_entry n count) ns) h in
      let (good, fresh) = check_node-IsGoodNode seen n first in
      IsChecked-cons good (λ m. cc (fresh, In-contains seen n.id m))
        (check_nodes-IsChecked (n.id ∷ seen) (count_entry n count) ns ids total rest)

-- The edges join nodes of the graph.
check_edges_sound :
    (ids : List String) (es : List Edge)
    → check_edges ids es ≡ fine
    → All (λ e. In e.from ids × In e.to ids) es
unfolding check_edges
check_edges_sound ids [] h = tt
check_edges_sound ids (e ∷ es) h =
    let (_, from, h1) = >>=-eq-ok (guard (contains ids e.from) _) _ h in
    let (_, to, h2) = >>=-eq-ok (guard (contains ids e.to) _) _ h1 in
    (
      (contains-In ids e.from (guard-eq-ok _ _ from), contains-In ids e.to (guard-eq-ok _ _ to)),
      check_edges_sound ids es h2,
    )

check_outgoing_sound :
    (edges : List Edge) (ns : List Node)
    → check_outgoing edges ns ≡ fine
    → All (λ n. validate_outgoing n (outgoing edges n.id) ≡ fine) ns
unfolding check_outgoing
check_outgoing_sound edges [] h = tt
check_outgoing_sound edges (n ∷ ns) h =
    let (_, first, rest) = >>=-eq-ok (validate_outgoing n (outgoing edges n.id)) _ h in
    (first, check_outgoing_sound edges ns rest)

check_reachable_sound :
    (marks : List String) (ns : List Node)
    → check_reachable marks ns ≡ fine
    → All (λ n. contains marks n.id ≡ true) ns
unfolding check_reachable
check_reachable_sound marks [] h = tt
check_reachable_sound marks (n ∷ ns) h =
    let (_, first, rest) = >>=-eq-ok (guard (contains marks n.id) _) _ h in
    (guard-eq-ok _ _ first, check_reachable_sound marks ns rest)

find_exit_sound :
    (marks : List String) (ns : List Node)
    → find_exit marks ns ≡ fine
    → (n : Node) × In n ns × (is_exit (node_type n.type) ≡ true)
unfolding find_exit
find_exit_sound marks [] h = cc
find_exit_sound marks (n ∷ ns) h =
    elim (Bool-cases (contains marks n.id && is_exit (node_type n.type))) [
      | inl found ↦ (n, inl refl, (and-eq-true _ _ found).1)
      | inr other ↦
          let (m, listed, exit) = find_exit_sound marks ns (ground arith) in (m, inr listed, exit)
    ]

module _ (parse_duration : String → Option ℤ) (g : Graph) where
  check_marks_sound :
      check_marks g (reachable_nodes g.entry_node_id g.edges) ≡ fine
      → All (λ n. ∥ Reach g.edges g.entry_node_id n.id ∥₁) g.nodes
        × ((n : Node) × In n g.nodes × (is_exit (node_type n.type) ≡ true))
  unfolding check_marks
  check_marks_sound h =
      let (marks, ends, exact) = reachable_nodes-Reach g.entry_node_id g.edges in
      let h' : check_marks g (some marks) ≡ fine = rw ends at h in
      let (_, reached, exit) = >>=-eq-ok (check_reachable marks g.nodes) _ h' in
      (
        All-map (λ n m. (exact n.id).0 m) g.nodes (check_reachable_sound marks g.nodes reached),
        find_exit_sound marks g.nodes exit,
      )

  -- The ids of the nodes are distinct and not empty, each node decodes and passes its own checks,
  -- exactly one is an entry node and it is the one that the graph names, the edges join nodes of the
  -- graph, each node has the edges that its type wants, every node is reached from the entry, and
  -- some node is an exit.
  pub record IsValid : Type 0 where
    pub distinct : Distinct (map Node.id g.nodes)
    pub good : All (IsGoodNode parse_duration g.entry_node_id) g.nodes
    pub one_entry : entries g.nodes ≡ 1
    pub entry_named : All (λ n. is_entry (node_type n.type) ≡ true → n.id ≡ g.entry_node_id) g.nodes
    pub entry_listed : In g.entry_node_id (map Node.id g.nodes)
    pub joined : All (λ e. In e.from (map Node.id g.nodes) × In e.to (map Node.id g.nodes)) g.edges
    pub branched : All (λ n. validate_outgoing n (outgoing g.edges n.id) ≡ fine) g.nodes
    pub reached : All (λ n. ∥ Reach g.edges g.entry_node_id n.id ∥₁) g.nodes
    pub exits : (n : Node) × In n g.nodes × (is_exit (node_type n.type) ≡ true)

  -- A graph that `Validate` accepts is valid.
  pub validate-IsValid : validate parse_duration (some g) ≡ fine → IsValid
  unfolding validate
  validate-IsValid h =
      let ((ids, total), nodes, h1) =
        >>=-eq-ok (check_nodes parse_duration g.entry_node_id [] 0 g.nodes) _ h in
      let (_, one, h2) = >>=-eq-ok (guard (nat_eq total 1) _) _ h1 in
      let (_, present, h3) = >>=-eq-ok (guard (contains ids g.entry_node_id) _) _ h2 in
      let (_, joined, h4) = >>=-eq-ok (check_edges ids g.edges) _ h3 in
      let (_, branched, marked) = >>=-eq-ok (check_outgoing g.edges g.nodes) _ h4 in
      let c = check_nodes-IsChecked parse_duration g.entry_node_id [] 0 g.nodes ids total nodes in
      let known : (id : String) → In id ids → In id (map Node.id g.nodes) =
        λ id m. elim (c.listed id m) [ inl nowhere ↦ absurd nowhere | inr listed ↦ listed ] in
      let (reached, exits) = check_marks_sound marked in
      record {
        distinct = c.distinct;
        good = c.good;
        one_entry = omega (arith, c.counted, (nat_eq_iff _ _).0 (guard-eq-ok _ _ one));
        entry_named =
            All-map
              (λ n (good : IsGoodNode parse_duration g.entry_node_id n).
                check_entry-named parse_duration g.entry_node_id n good.entry)
              g.nodes c.good;
        entry_listed = known g.entry_node_id (contains-In ids _ (guard-eq-ok _ _ present));
        joined =
            All-map (λ e m. (known e.from m.0, known e.to m.1)) g.edges
              (check_edges_sound ids g.edges joined);
        branched = check_outgoing_sound g.edges g.nodes branched;
        reached = reached;
        exits = exits;
      }
