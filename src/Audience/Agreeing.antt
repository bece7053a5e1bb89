-- ===== src/Audience/Agreeing.antt =====
-- When a text of internal/audience/compile_pg.go has the value that a condition means, for one condition and for a group.
use openjourney.Common.{
  suc, ◌≡◌, refl, sym, ap, subst, List, [], ◌∷◌, ◌++◌, Option, none, some, String, arith, ok,
  length,
}
use openjourney.Audience.Sql.{Test, Sql, Sqls}
use openjourney.Audience.Compile.{Arg, tested, grouped, opposite, with_part}
use openjourney.Audience.Truth.{
  Truth, holds, fails, unknown, conj, disj, neg, Row, both, bound, opposite_truth, sql_value,
  group_value, join_truth,
}

pub append_assoc : {A : Type 0} → (xs ys zs : List A) → (xs ++ ys) ++ zs ≡ xs ++ (ys ++ zs)
append_assoc [] ys zs = refl
append_assoc (x ∷ xs) ys zs = rw (append_assoc xs ys zs)

pub append-nil : (xs : List Arg) → xs ++ [] ≡ xs
append-nil [] = refl
append-nil (x ∷ xs) = rw (append-nil xs)

pub tested-some :
    (operator : String) (o : Option Test) (test : Test)
    → tested operator o ≡ ok test
    → o ≡ some test
unfolding tested
tested-some operator none test h = absurd (ground arith)
tested-some operator (some t) test h = cc

-- The argument that stands after others.
pub bound_after :
    (args : List Arg) (a : Arg) (rest : List Arg)
    → bound (suc (length args)) (args ++ a ∷ rest) ≡ some a
bound_after [] a rest = refl
bound_after (b ∷ args) a rest = bound_after args a rest

module _ (row : Row) (ps : List Arg) where
  -- A text and a meaning: both absent, or the one has the other as its value.
  unfoldable pub Agrees : Option Sql → Option Truth → Type 0
  Agrees none m = m ≡ none
  Agrees (some e) m = (t : Truth) × (m ≡ some t) × (sql_value row ps e ≡ some t)

  pub opposite-Agrees :
      (c : Option Sql) (m : Option Truth) → Agrees c m → Agrees (opposite c) (opposite_truth m)
  unfolding sql_value Agrees
  opposite-Agrees none m h = rw h
  opposite-Agrees (some e) m (t, means, computes) = (neg t, rw means, rw computes)

  module _ (f : Truth → Truth → Truth) (unit : Truth) where
    unfoldable pub GroupAgrees : Sqls → Option Truth → Type 0
    GroupAgrees Sqls.nil m = m ≡ none
    GroupAgrees parts m = (t : Truth) × (m ≡ some t) × (group_value f unit row ps parts ≡ some t)

    pub with_part-GroupAgrees :
        ((a : Truth) → f a unit ≡ a)
        → (c : Option Sql) (m : Option Truth) (parts : Sqls) (ms : Option Truth) → Agrees c m
        → GroupAgrees parts ms
        → GroupAgrees (with_part c parts) (join_truth f m ms)
    unfolding sql_value group_value Agrees GroupAgrees
    with_part-GroupAgrees right none m parts ms first rest =
        subst (λ m'. GroupAgrees parts (join_truth f m' ms)) (sym first) rest
    with_part-GroupAgrees right (some e) m Sqls.nil ms (t, means, computes) rest =
        (t, rw (means, rest), rw (computes, right t))
    with_part-GroupAgrees right (some e) m (Sqls.cons p parts) ms (t, means, computes)
          (t', means', computes') =
        (f t t', rw (means, means'), rw (computes, computes'))

  pub every-Agrees :
      (parts : Sqls) (m : Option Truth)
      → GroupAgrees conj holds parts m
      → Agrees (grouped Sql.every parts) m
  unfolding sql_value Agrees GroupAgrees
  every-Agrees Sqls.nil m h = h
  every-Agrees (Sqls.cons p parts) m h = h

  pub some_of-Agrees :
      (parts : Sqls) (m : Option Truth)
      → GroupAgrees disj fails parts m
      → Agrees (grouped Sql.some_of parts) m
  unfolding sql_value Agrees GroupAgrees
  some_of-Agrees Sqls.nil m h = h
  some_of-Agrees (Sqls.cons p parts) m h = h

pub conj-holds : (a : Truth) → conj a holds ≡ a
conj-holds holds = refl
conj-holds fails = refl
conj-holds unknown = refl

pub disj-fails : (a : Truth) → disj a fails ≡ a
disj-fails holds = refl
disj-fails fails = refl
disj-fails unknown = refl

-- The laws of AND and OR that let a reader group from the left.
pub conj_assoc : (a b c : Truth) → conj (conj a b) c ≡ conj a (conj b c)
conj_assoc holds b c = refl
conj_assoc fails b c = refl
conj_assoc unknown holds c = refl
conj_assoc unknown fails c = refl
conj_assoc unknown unknown holds = refl
conj_assoc unknown unknown fails = refl
conj_assoc unknown unknown unknown = refl

pub disj_assoc : (a b c : Truth) → disj (disj a b) c ≡ disj a (disj b c)
disj_assoc holds b c = refl
disj_assoc fails b c = refl
disj_assoc unknown holds c = refl
disj_assoc unknown fails c = refl
disj_assoc unknown unknown holds = refl
disj_assoc unknown unknown fails = refl
disj_assoc unknown unknown unknown = refl

pub both_assoc :
    (f : Truth → Truth → Truth)
    → ((a b c : Truth) → f (f a b) c ≡ f a (f b c))
    → (a b c : Option Truth) → both f (both f a b) c ≡ both f a (both f b c)
both_assoc f law none b c = refl
both_assoc f law (some a) none c = refl
both_assoc f law (some a) (some b) none = refl
both_assoc f law (some a) (some b) (some c) = ap some (law a b c)

pub both-holds : (v : Option Truth) → both conj v (some holds) ≡ v
both-holds none = refl
both-holds (some holds) = refl
both-holds (some fails) = refl
both-holds (some unknown) = refl

pub both-fails : (v : Option Truth) → both disj v (some fails) ≡ v
both-fails none = refl
both-fails (some holds) = refl
both-fails (some fails) = refl
both-fails (some unknown) = refl

pub holds-both : (v : Option Truth) → both conj (some holds) v ≡ v
holds-both none = refl
holds-both (some v) = refl

pub fails-both : (v : Option Truth) → both disj (some fails) v ≡ v
fails-both none = refl
fails-both (some v) = refl
