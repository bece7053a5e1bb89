-- ===== src/Audience/ReadBack.antt =====
-- The text that `compileProfileNode` of internal/audience/compile_pg.go writes, read as PostgreSQL
-- reads it, against the condition it was written for.
use openjourney.Common.{
  ℕ, ◌≡◌, refl, sym, ap, ◌∙◌, true, false, List, [], ◌∷◌, ◌++◌, Option, none, some, String,
}
use openjourney.Audience.Sql.{
  Test, equal, like, any_of, greater, less, Sql, Sqls, Token, word, sign, render, render_all,
}
use openjourney.Audience.Compile.{Arg, is_safe, expression}
use openjourney.Audience.Truth.{
  Truth, holds, fails, conj, disj, Row, both, opposite_truth, sql_value, group_value,
}
use openjourney.Audience.Agreeing.{
  append_assoc, conj_assoc, disj_assoc, both_assoc, both-holds, both-fails, holds-both, fails-both,
}
use openjourney.Audience.Reading.{before, after, Frame, closed, sign_test, read, condition}
use openjourney.Audience.Shift.{shifted, shifted_all, shifted_opt}
use openjourney.Audience.Safety.{IsSafeSql, AreSafeSqls, IsSafeText}

module _ (row : Row) (args : List Arg) where
  read-attribute :
      (name : String) (test : Test) (n : ℕ) (rest : List Token) (o a : Option Truth)
      (fs : List Frame)
      → is_safe name ≡ true
      → read row args 0 (render (Sql.attribute name test n) ++ rest) (before o a fs)
        ≡ read row args 0 rest
            (after o (both conj a (sql_value row args (Sql.attribute name test n))) fs)
  unfolding read render sql_value
  read-attribute name equal n rest o a fs safe = rw (safe, read)
  read-attribute name like n rest o a fs safe = rw (safe, read)
  read-attribute name any_of n rest o a fs safe = rw (safe, read)
  read-attribute name greater n rest o a fs safe = rw (safe, read)
  read-attribute name less n rest o a fs safe = rw (safe, read)

  read-company :
      (name : String) (test : Test) (n : ℕ) (rest : List Token) (o a : Option Truth)
      (fs : List Frame)
      → is_safe name ≡ true
      → read row args 0 (render (Sql.company name test n) ++ rest) (before o a fs)
        ≡ read row args 0 rest
            (after o (both conj a (sql_value row args (Sql.company name test n))) fs)
  unfolding read render sql_value
  read-company name equal n rest o a fs safe = rw (safe, read)
  read-company name like n rest o a fs safe = rw (safe, read)
  read-company name any_of n rest o a fs safe = rw (safe, read)
  read-company name greater n rest o a fs safe = rw (safe, read)
  read-company name less n rest o a fs safe = rw (safe, read)

  read-score :
      (m s : ℕ) (test : Test) (n : ℕ) (rest : List Token) (o a : Option Truth) (fs : List Frame)
      → sign_test (sign test) ≡ some test
      → read row args 0 (render (Sql.score m s test n) ++ rest) (before o a fs)
        ≡ read row args 0 rest
            (after o (both conj a (sql_value row args (Sql.score m s test n))) fs)
  unfolding read render sql_value
  read-score m s test n rest o a fs faithful = rw (faithful, read)

  mutual
    unfolding read render sql_value

    -- An operand, wherever one is expected.
    read-render :
        (e : Sql) (rest : List Token) (o a : Option Truth) (fs : List Frame)
        → IsSafeSql e
        → read row args 0 (render e ++ rest) (before o a fs)
          ≡ read row args 0 rest (after o (both conj a (sql_value row args e)) fs)
    read-render (Sql.attribute name test n) rest o a fs (IsSafeSql.attribute safe) =
        read-attribute name test n rest o a fs safe
    read-render (Sql.company name test n) rest o a fs (IsSafeSql.company safe) =
        read-company name test n rest o a fs safe
    read-render (Sql.consent c t s) rest o a fs safe = refl
    read-render (Sql.score m s test n) rest o a fs (IsSafeSql.score faithful) =
        read-score m s test n rest o a fs faithful
    read-render (Sql.every (Sqls.cons part parts)) rest o a fs (IsSafeSql.every all) =
        let inner : Frame = record { is_negated = false; ors = o; ands = a } in
        ap (λ l. read row args 0 l (before (some fails) (some holds) (inner ∷ fs)))
          (append_assoc (render_all " AND " (Sqls.cons part parts)) (word ")" ∷ []) rest)
        ∙ read-every part parts (word ")" ∷ rest) (some fails) (some holds) (inner ∷ fs) all
        ∙ ap (λ v. read row args 0 rest (after o (both conj a v) fs)) (fails-both _ ∙ holds-both _)
    read-render (Sql.some_of (Sqls.cons part parts)) rest o a fs (IsSafeSql.some_of all) =
        let inner : Frame = record { is_negated = false; ors = o; ands = a } in
        ap (λ l. read row args 0 l (before (some fails) (some holds) (inner ∷ fs)))
          (append_assoc (render_all " OR " (Sqls.cons part parts)) (word ")" ∷ []) rest)
        ∙ read-some_of part parts rest (some fails) inner fs all
        ∙ ap (λ v. read row args 0 rest (after o (both conj a v) fs)) (fails-both _)
    read-render (Sql.every Sqls.nil) rest o a fs safe = elim safe [ ]
    read-render (Sql.some_of Sqls.nil) rest o a fs safe = elim safe [ ]
    read-render (Sql.negated part) rest o a fs (IsSafeSql.negated safe) =
        let inner : Frame = record { is_negated = true; ors = o; ands = a } in
        ap (λ l. read row args 0 l (before (some fails) (some holds) (inner ∷ fs)))
          (append_assoc (render part) (word ")" ∷ []) rest)
        ∙ read-render part (word ")" ∷ rest) (some fails) (some holds) (inner ∷ fs) safe
        ∙ ap (λ v. read row args 0 rest (after o (both conj a (opposite_truth v)) fs))
            (fails-both _ ∙ holds-both _)

    -- The operands of an AND.
    read-every :
        (part : Sql) (parts : Sqls) (rest : List Token) (o a : Option Truth) (fs : List Frame)
        → AreSafeSqls (Sqls.cons part parts)
        → read row args 0 (render_all " AND " (Sqls.cons part parts) ++ rest) (before o a fs)
          ≡ read row args 0 rest
              (after o (both conj a (group_value conj holds row args (Sqls.cons part parts))) fs)
    read-every part Sqls.nil rest o a fs (AreSafeSqls.cons safe all) =
        read-render part rest o a fs safe
        ∙ ap (λ v. read row args 0 rest (after o (both conj a v) fs)) (sym (both-holds _))
    read-every part (Sqls.cons next parts) rest o a fs (AreSafeSqls.cons safe all) =
        ap (λ l. read row args 0 l (before o a fs)) (append_assoc (render part) _ rest)
        ∙ read-render part _ o a fs safe
        ∙ read-every next parts rest o (both conj a (sql_value row args part)) fs all
        ∙ ap (λ v. read row args 0 rest (after o v fs)) (both_assoc conj conj_assoc a _ _)

    -- The operands of an OR, and the parenthesis that closes it.
    read-some_of :
        (part : Sql) (parts : Sqls) (rest : List Token) (o : Option Truth) (f : Frame)
        (fs : List Frame)
        → AreSafeSqls (Sqls.cons part parts)
        → read row args 0
            (render_all " OR " (Sqls.cons part parts) ++ word ")" ∷ rest)
            (before o (some holds) (f ∷ fs))
          ≡ read row args 0 rest (
              after f.ors
                (both conj f.ands (
                  closed f.is_negated
                    (both disj o (group_value disj fails row args (Sqls.cons part parts)))))
                fs)
    read-some_of part Sqls.nil rest o f fs (AreSafeSqls.cons safe all) =
        read-render part (word ")" ∷ rest) o (some holds) (f ∷ fs) safe
        ∙ ap
            (λ v.
              read row args 0 rest
                (after f.ors (both conj f.ands (closed f.is_negated (both disj o v))) fs))
            (holds-both _ ∙ sym (both-fails _))
    read-some_of part (Sqls.cons next parts) rest o f fs (AreSafeSqls.cons safe all) =
        ap (λ l. read row args 0 l (before o (some holds) (f ∷ fs)))
          (append_assoc (render part) _ (word ")" ∷ rest))
        ∙ read-render part _ o (some holds) (f ∷ fs) safe
        ∙ read-some_of next parts rest
            (both disj o (both conj (some holds) (sql_value row args part))) f fs all
        ∙ ap (λ v. read row args 0 rest (after f.ors (both conj f.ands (closed f.is_negated v)) fs))
            (ap
                (λ v.
                  both disj (both disj o v)
                    (group_value disj fails row args (Sqls.cons next parts)))
                (holds-both _)
              ∙ both_assoc disj disj_assoc o _ _)

  -- The condition of a query, up to the parenthesis that closes it.
  pub condition-expression :
      (c : Option Sql) (v : Option Truth)
      → IsSafeText c
      → (let w : Option Truth = elim c [ none ↦ some holds | some e ↦ sql_value row args e ] in w)
        ≡ v
      → condition row args (expression c ++ word ")" ∷ []) ≡ v
  unfolding read
  condition-expression none v safe h = h
  condition-expression (some e) v safe h =
      read-render e (word ")" ∷ []) (some fails) (some holds) _ safe
      ∙ fails-both _
      ∙ holds-both _
      ∙ fails-both _
      ∙ holds-both _
      ∙ h

-- A text with its placeholders moved is as safe.
mutual
  unfolding shifted

  shifted-IsSafeSql : (e : Sql) → IsSafeSql e → IsSafeSql (shifted e)
  shifted-IsSafeSql (Sql.attribute name test n) (IsSafeSql.attribute safe) =
      IsSafeSql.attribute safe
  shifted-IsSafeSql (Sql.company name test n) (IsSafeSql.company safe) = IsSafeSql.company safe
  shifted-IsSafeSql (Sql.consent c t s) safe = IsSafeSql.consent
  shifted-IsSafeSql (Sql.score m s test n) (IsSafeSql.score faithful) = IsSafeSql.score faithful
  shifted-IsSafeSql (Sql.every Sqls.nil) safe = elim safe [ ]
  shifted-IsSafeSql (Sql.some_of Sqls.nil) safe = elim safe [ ]
  shifted-IsSafeSql (Sql.every (Sqls.cons part parts)) (IsSafeSql.every all) =
      IsSafeSql.every (shifted-AreSafeSqls (Sqls.cons part parts) all)
  shifted-IsSafeSql (Sql.some_of (Sqls.cons part parts)) (IsSafeSql.some_of all) =
      IsSafeSql.some_of (shifted-AreSafeSqls (Sqls.cons part parts) all)
  shifted-IsSafeSql (Sql.negated part) (IsSafeSql.negated safe) =
      IsSafeSql.negated (shifted-IsSafeSql part safe)

  shifted-AreSafeSqls : (parts : Sqls) → AreSafeSqls parts → AreSafeSqls (shifted_all parts)
  shifted-AreSafeSqls Sqls.nil all = AreSafeSqls.nil
  shifted-AreSafeSqls (Sqls.cons part parts) (AreSafeSqls.cons safe all) =
      AreSafeSqls.cons (shifted-IsSafeSql part safe) (shifted-AreSafeSqls parts all)

pub shifted-IsSafeText : (c : Option Sql) → IsSafeText c → IsSafeText (shifted_opt c)
shifted-IsSafeText none safe = tt
shifted-IsSafeText (some e) safe = shifted-IsSafeSql e safe
