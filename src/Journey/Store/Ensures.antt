-- ===== src/Journey/Store/Ensures.antt =====
-- Reasoning about executions: what holds of a call's value if it returns one, and of its error.
use openjourney.Common.{String, Result, ok, err}
use openjourney.Journey.Store.{
  M, Query, Call, ExecutionError, no_edge, store_error, wrapped, pure, ask, perform, ◌>>=◌,
}

abbrev pub Outcome :
    {A : Type 0} → (ExecutionError → Type 0) → (A → Type 0) → Result ExecutionError A → Type 0
Outcome E Q (ok a) = Q a
Outcome E Q (err e) = E e

-- The errors but that of a missing edge.
abbrev pub IsOther : ExecutionError → Type 0
IsOther (no_edge _ _) = ⊥
IsOther _ = Unit

abbrev pub Any : ExecutionError → Type 0
Any e = Unit

module _ {W : Type 0} (E : ExecutionError → Type 0) where
  pub record Ensures {A : Type 0} (Q : A → Type 0) (m : M W A) : Type 0 where
    pub at_world : (w : W) → Outcome E Q (m w).0

  after_pair :
      {A B : Type 0} (Q : A → Type 0) (R : B → Type 0) (p : Result ExecutionError A × W)
      (f : A → M W B)
      → Outcome E Q p.0
      → ((a : A) → Q a → Ensures R (f a))
      → Outcome E R (((λ (w : W). p) >>= f) p.1).0
  unfolding ◌>>=◌
  after_pair Q R (ok a, w) f q k = (k a q).at_world w
  after_pair Q R (err e, w) f q k = q

  pub >>=-Ensures :
      {A B : Type 0} (Q : A → Type 0) (R : B → Type 0) (m : M W A) (f : A → M W B)
      → Ensures Q m
      → ((a : A) → Q a → Ensures R (f a))
      → Ensures R (m >>= f)
  unfolding ◌>>=◌
  >>=-Ensures Q R m f q k = record { at_world = λ w. after_pair Q R (m w) f (q.at_world w) k }

  pub pure-Ensures :
      {A : Type 0} (Q : A → Type 0) (r : Result ExecutionError A)
      → Outcome E Q r
      → Ensures Q (pure r)
  unfolding pure
  pure-Ensures Q r h = record { at_world = λ w. h }

monotone-Outcome :
    {A : Type 0} (E : ExecutionError → Type 0) (Q R : A → Type 0)
    → ((a : A) → Q a → R a)
    → (r : Result ExecutionError A) → Outcome E Q r
    → Outcome E R r
monotone-Outcome E Q R f (ok a) h = f a h
monotone-Outcome E Q R f (err e) h = h

pub monotone :
    {W A : Type 0} (E : ExecutionError → Type 0) (Q R : A → Type 0) (m : M W A)
    → ((a : A) → Q a → R a)
    → Ensures E Q m
    → Ensures E R m
monotone E Q R m f q = record { at_world = λ w. monotone-Outcome E Q R f (m w).0 (q.at_world w) }

weaken :
    {A : Type 0} (E : ExecutionError → Type 0) (Q : A → Type 0) (r : Result ExecutionError A)
    → Outcome (λ e. ⊥) Q r
    → Outcome E Q r
weaken E Q (ok a) h = h
weaken E Q (err e) h = absurd h

-- A call that never fails ensures the same for any errors.
pub ever :
    {W A : Type 0} (E : ExecutionError → Type 0) (Q : A → Type 0) (m : M W A)
    → Ensures (λ e. ⊥) Q m
    → Ensures E Q m
ever E Q m q = record { at_world = λ w. weaken E Q (m w).0 (q.at_world w) }

module _ (E : ExecutionError → Type 0) (other : (e : ExecutionError) → IsOther e → E e) where
  wrapped-Outcome :
      {A : Type 0} (name : String) (r : Result String A)
      → Outcome E (λ _. Unit {0}) (wrapped name r)
  wrapped-Outcome name (ok a) = tt
  wrapped-Outcome name (err message) = other (store_error name message) tt

  pub ask-Ensures :
      {W A : Type 0} (name : String) (q : Query W A) → Ensures E (λ _. Unit {0}) (ask name q)
  unfolding ask
  ask-Ensures name q = record { at_world = λ w. wrapped-Outcome name (q w) }

  pub perform-Ensures :
      {W A : Type 0} (name : String) (c : Call W A) → Ensures E (λ _. Unit {0}) (perform name c)
  unfolding perform
  perform-Ensures name c = record { at_world = λ w. wrapped-Outcome name (c w).0 }

  -- What follows a call, whatever the call returns.
  pub ask_then :
      {W A B : Type 0} (R : B → Type 0) (name : String) (q : Query W A) (f : A → M W B)
      → ((a : A) → Ensures E R (f a))
      → Ensures E R (ask name q >>= f)
  ask_then R name q f k =
      >>=-Ensures E (λ _. Unit {0}) R (ask name q) f (ask-Ensures name q) (λ a u. k a)

  pub perform_then :
      {W A B : Type 0} (R : B → Type 0) (name : String) (c : Call W A) (f : A → M W B)
      → ((a : A) → Ensures E R (f a))
      → Ensures E R (perform name c >>= f)
  perform_then R name c f k =
      >>=-Ensures E (λ _. Unit {0}) R (perform name c) f (perform-Ensures name c) (λ a u. k a)
