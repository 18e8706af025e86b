-- ===== src/QueryExecutor/Compare/Levels.antt =====
-- equal and less_than are the tests of one comparison.
use loxim_stats.Base.{
  ℕ, zero, suc, ◌≡◌, refl, ap, ap₂, fun_ext, ◌∙◌, sym, subst, true, false, ◌&&◌, List, [], ◌∷◌,
  length, if◌then◌else◌, arith,
}
use loxim_stats.Base.Text.{Text, eqb_text, ltb_text}
use loxim_stats.Base.Compare.{is_lt, is_eq, or_else, IsCompare, compare_list, compare_text}
use loxim_stats.QueryExecutor.Compare.Sorting.{length-sort}
use Prim.Native.Nat.{compare, Ordering}
use Prim.Native.Nat.Ordering.{lt, eq, gt}
use loxim_stats.QueryExecutor.Doubles.{Doubles, DoubleLaws}
use loxim_stats.QueryExecutor.Result.{
  QueryResult, reference, virtual, string, int, double, boolean, binder, structure, bag, sequence,
  nothing, to_list,
}
use loxim_stats.QueryExecutor.Compare.{
  Tests, sort, equal_elements, less_elements, equal_collections, less_collections, equal_level,
  less_level, tests,
}
use loxim_stats.QueryExecutor.Compare.Order.{order_level, order, order-IsCompare, of_order}

or_else_eq : (o : Ordering) → or_else o eq ≡ o
or_else_eq lt = refl
or_else_eq eq = refl
or_else_eq gt = refl

text_equal : (s t : Text) → eqb_text s t ≡ is_eq (compare_text s t)
unfolding eqb_text compare_list
text_equal [] [] = refl
text_equal [] (d ∷ t) = refl
text_equal (c ∷ s) [] = refl
text_equal (c ∷ s) (d ∷ t) = ground (arith, text_equal s t)

text_less : (s t : Text) → ltb_text s t ≡ is_lt (compare_text s t)
unfolding ltb_text compare_list
text_less [] [] = refl
text_less [] (d ∷ t) = refl
text_less (c ∷ s) [] = refl
text_less (c ∷ s) (d ∷ t) = ground (arith, text_less s t)

module _ {D : Type 0} (o : QueryResult D → QueryResult D → Ordering) where
  elements_equal :
      (xs ys : List (QueryResult D))
      → length ys ≡ length xs
      → equal_elements (of_order o) xs ys ≡ is_eq (compare_list o xs ys)
  unfolding equal_elements compare_list
  elements_equal [] [] h = refl
  elements_equal [] (y ∷ ys) h = absurd (omega arith)
  elements_equal (x ∷ xs) [] h = absurd (omega arith)
  elements_equal (x ∷ xs) (y ∷ ys) h = ground (arith, elements_equal xs ys)

  pub elements_less :
      (xs ys : List (QueryResult D))
      → length ys ≡ length xs
      → less_elements (of_order o) xs ys ≡ is_lt (compare_list o xs ys)
  unfolding less_elements compare_list
  elements_less [] [] h = refl
  elements_less [] (y ∷ ys) h = absurd (omega arith)
  elements_less (x ∷ xs) [] h = absurd (omega arith)
  elements_less (x ∷ xs) (y ∷ ys) h = ground (arith, elements_less xs ys)

  collections_equal :
      (xs ys : List (QueryResult D))
      → equal_collections (of_order o) xs ys
        ≡ is_eq (
            or_else
              (compare (length xs) (length ys))
              (compare_list o (sort (of_order o).less_than xs) (sort (of_order o).less_than ys)))
  unfolding equal_collections
  collections_equal xs ys =
      let less = (of_order o).less_than in
      ground (
        arith,
        length-sort less xs,
        length-sort less ys,
        elements_equal (sort less xs) (sort less ys),
      )

  collections_less :
      (xs ys : List (QueryResult D))
      → less_collections (of_order o) xs ys
        ≡ is_lt (
            or_else
              (compare (length xs) (length ys))
              (compare_list o (sort (of_order o).less_than xs) (sort (of_order o).less_than ys)))
  unfolding less_collections
  collections_less xs ys =
      let less = (of_order o).less_than in
      ground (
        arith,
        length-sort less xs,
        length-sort less ys,
        elements_less (sort less xs) (sort less ys),
      )

  module _ {d : Doubles D} (L : DoubleLaws d) where
    level_equal :
        (a b : QueryResult D) → equal_level d (of_order o) a b ≡ is_eq (order_level L o a b)
    unfolding equal_level order_level
    level_equal (sequence xs) (sequence ys) = collections_equal (to_list xs) (to_list ys)
    level_equal (bag xs) (bag ys) = collections_equal (to_list xs) (to_list ys)
    level_equal (structure xs) (structure ys) = collections_equal (to_list xs) (to_list ys)
    level_equal (binder n r) (binder m s) = ground (arith, text_equal n m)
    level_equal (string v) (string w) = ground (arith, text_equal v w)
    level_equal (virtual v) (virtual w) = ground (arith, text_equal v w)
    level_equal (int a) (int b) = ground (arith, L.of_int_lem a b)
    level_equal (int a) (double y) = ground (arith, L.equals_lem (d.of_int a) y)
    level_equal (double x) (int b) = ground (arith, L.equals_lem x (d.of_int b))
    level_equal (double x) (double y) = ground (arith, L.equals_lem x y)
    level_equal (boolean true) (boolean true) = refl
    level_equal (boolean true) (boolean false) = refl
    level_equal (boolean false) (boolean true) = refl
    level_equal (boolean false) (boolean false) = refl
    level_equal (reference i k r) (reference j l s) = ground arith
    level_equal nothing nothing = refl
    level_equal a b = refl

    level_less : (a b : QueryResult D) → less_level d (of_order o) a b ≡ is_lt (order_level L o a b)
    unfolding less_level order_level
    level_less (sequence xs) (sequence ys) = collections_less (to_list xs) (to_list ys)
    level_less (bag xs) (bag ys) = collections_less (to_list xs) (to_list ys)
    level_less (structure xs) (structure ys) = collections_less (to_list xs) (to_list ys)
    level_less (binder n r) (binder m s) = ground (arith, text_equal n m, text_less n m)
    level_less (string v) (string w) = ground (arith, text_less v w)
    level_less (virtual v) (virtual w) = ground (arith, text_less v w)
    level_less (int a) (int b) = ground (arith, L.of_int_lem a b)
    level_less (int a) (double y) = ground (arith, L.less_lem (d.of_int a) y)
    level_less (double x) (int b) = ground (arith, L.less_lem x (d.of_int b))
    level_less (double x) (double y) = ground (arith, L.less_lem x y)
    level_less (boolean true) (boolean true) = refl
    level_less (boolean true) (boolean false) = refl
    level_less (boolean false) (boolean true) = refl
    level_less (boolean false) (boolean false) = refl
    level_less (reference i k r) (reference j l s) = ground arith
    level_less nothing nothing = refl
    level_less a b = refl

pub tests_order :
    {D : Type 0} {d : Doubles D} (L : DoubleLaws d) (n : ℕ) → tests d n ≡ of_order (order L n)
unfolding tests order
tests_order L zero = refl
tests_order {D} {d} L (suc n) =
    ap (λ t. record { equal = equal_level d t; less_than = less_level d t }) (tests_order L n)
    ∙ ap₂ (λ e l. record { equal = e; less_than = l })
        (fun_ext (λ a. fun_ext (λ b. level_equal (order L n) L a b)))
        (fun_ext (λ a. fun_ext (λ b. level_less (order L n) L a b)))

-- Where doubles are ordered, equal and less_than on results of any nesting are the tests "equal" and
-- "less" of one comparison, which goes by kind, then by value, then by the number of elements
-- and then by the sorted elements.
pub tests-order :
    {D : Type 0} {d : Doubles D} (L : DoubleLaws d) (n : ℕ) (a b : QueryResult D)
    → ((tests d n).equal a b ≡ is_eq (order L n a b))
      × ((tests d n).less_than a b ≡ is_lt (order L n a b))
tests-order L n a b =
    (ap (λ t. t.equal a b) (tests_order L n), ap (λ t. t.less_than a b) (tests_order L n))

-- The outcome that the two tests together report.
abbrev pub outcome : {D : Type 0} → Tests D → QueryResult D → QueryResult D → Ordering
outcome t a b = if t.equal a b then eq else if t.less_than a b then lt else gt

outcome_order : (o : Ordering) → (if is_eq o then eq else if is_lt o then lt else gt) ≡ o
outcome_order lt = refl
outcome_order eq = refl
outcome_order gt = refl

not_both : (o : Ordering) → (is_eq o && is_lt o) ≡ false
not_both lt = refl
not_both eq = refl
not_both gt = refl

outcome-tests :
    {D : Type 0} {d : Doubles D} (L : DoubleLaws d) (n : ℕ) → outcome (tests d n) ≡ order L n
outcome-tests L n =
    ap outcome (tests_order L n) ∙ fun_ext (λ a. fun_ext (λ b. outcome_order (order L n a b)))

-- Where doubles are ordered, the two tests are those of a total preorder: never both hold, the outcome
-- of two results is reversed with them, and outcomes compose along a chain of three.
pub outcome-IsCompare :
    {D : Type 0} {d : Doubles D} (L : DoubleLaws d) (n : ℕ)
    → IsCompare (outcome (tests d n))
      × ((a b : QueryResult D) → ((tests d n).equal a b && (tests d n).less_than a b) ≡ false)
outcome-IsCompare L n = (
  subst IsCompare (sym (outcome-tests L n)) (order-IsCompare L n),
  λ a b. ap (λ t. t.equal a b && t.less_than a b) (tests_order L n) ∙ not_both (order L n a b),
)
