-- ===== src/Journey/Outgoing/Delete.antt =====
-- The removal of a label from the set of wanted labels.
use openjourney.Common.{
  suc, ◌≡◌, refl, sym, ap, subst, ◌⊎◌, inl, inr, true, false, List, [], ◌∷◌, String, ◌==◌, eq_iff,
  arith, length, Bool-cases, In, Distinct,
}
use openjourney.Journey.Outgoing.{delete}

pub In-delete :
    (label : String) (ws : List String) (l : String)
    → In l ws
    → (l ≡ label) ⊎ In l (delete label ws)
unfolding delete
In-delete label [] l m = absurd m
In-delete label (w ∷ ws) l (inl same) = ground (arith, eq_iff w label)
In-delete label (w ∷ ws) l (inr m) = ground (arith, In-delete label ws l m)

pub In_of_delete :
    (label : String) (ws : List String) (l : String) → In l (delete label ws) → In l ws
unfolding delete
In_of_delete label [] l m = m
In_of_delete label (w ∷ ws) l m = ground (arith, In_of_delete label ws l)

delete_nil : (label : String) → delete label [] ≡ []
unfolding delete
delete_nil label = refl

delete_hit :
    (label w : String) (ws : List String)
    → (w == label) ≡ true
    → delete label (w ∷ ws) ≡ delete label ws
unfolding delete
delete_hit label w ws hit = rw hit

delete_miss :
    (label w : String) (ws : List String)
    → (w == label) ≡ false
    → delete label (w ∷ ws) ≡ w ∷ delete label ws
unfolding delete
delete_miss label w ws miss = rw miss

pub delete-Distinct : (label : String) (ws : List String) → Distinct ws → Distinct (delete label ws)
delete-Distinct label [] h = subst Distinct (sym (delete_nil label)) tt
delete-Distinct label (w ∷ ws) (h, hs) = elim (Bool-cases (w == label)) [
  | inl hit ↦ subst Distinct (sym (delete_hit label w ws hit)) (delete-Distinct label ws hs)
  | inr miss ↦
      subst Distinct (sym (delete_miss label w ws miss))
        (λ m. h (In_of_delete label ws w m), delete-Distinct label ws hs)
]

delete_absent : (label : String) (ws : List String) → ¬ In label ws → delete label ws ≡ ws
unfolding delete
delete_absent label [] h = refl
delete_absent label (w ∷ ws) h =
    let other : (w == label) ≡ false = ground (arith, eq_iff w label, h) in
    rw other (ap (λ l. w ∷ l) (delete_absent label ws (λ m. h (inr m))))

pub length-delete :
    (label : String) (ws : List String)
    → Distinct ws
    → In label ws
    → suc (length (delete label ws)) ≡ length ws
length-delete label [] h m = absurd m
length-delete label (w ∷ ws) (h, hs) m = elim (Bool-cases (w == label)) [
  | inl hit ↦
      let absent : ¬ In label ws = subst (λ x. ¬ In x ws) ((eq_iff w label).0 hit) h in
      rw (delete_hit label w ws hit, delete_absent label ws absent)
  | inr miss ↦
      let later : In label ws = ground (arith, eq_iff w label) in
      rw (delete_miss label w ws miss) (ap suc (length-delete label ws hs later))
]
