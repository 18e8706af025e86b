-- ===== src/QueryExecutor/Algebraic/Laws.antt =====
-- What the operators + - * / answer, union, and the products of comma.
use loxim_stats.Base.{
  ℕ, ◌≡◌, refl, ap, ◌∙◌, sym, Bool, true, false, not, ◌&&◌, ◌||◌, List, [], ◌∷◌, ◌++◌,
  if◌then◌else◌, ◌==◌, arith, append-nil, append_assoc,
}
use loxim_stats.Base.Int.{pos, eqb_ℤ}
use loxim_stats.QueryExecutor.Doubles.{Doubles}
use loxim_stats.QueryExecutor.Result.{
  QueryResult, string, int, double, structure, bag, sequence, nil, cons, to_list, ok,
  number_expected, div_by_0, is_nothing, add_to_bag, add_to_structure, type_of,
}
use loxim_stats.QueryExecutor.Result.Access.{code, AllSomething, somethings_all}
use loxim_stats.QueryExecutor.Arithmetic.{
  Arithmetic, plus, minus, times, divide, int_operate, double_operate, zero_double,
}
use loxim_stats.QueryExecutor.Algebraic.{
  as_string, is_string, arithmetic_operate, add, as_bag, union, pair, pair_with, pair_all,
}
use loxim_stats.QueryExecutor.Algebraic.Plain.{IsPlain, add_plain}

module _ {D : Type 0} (d : Doubles D) where
  abbrev pub is_number : QueryResult D → Bool
  is_number (int v) = true
  is_number (double v) = true
  is_number _ = false

  abbrev pub is_zero : QueryResult D → Bool
  is_zero (int v) = eqb_ℤ v (pos 0)
  is_zero (double v) = d.equals v (zero_double d)
  is_zero _ = false

  abbrev pub divides : Arithmetic → Bool
  divides plus = false
  divides minus = false
  divides times = false
  divides divide = true

  -- The code that the operators should return.
  abbrev pub arithmetic_code : Arithmetic → QueryResult D → QueryResult D → ℕ
  arithmetic_code op l r =
      if is_string d l || is_string d r
      then 0
      else if not (is_number l && is_number r)
      then number_expected
      else if divides op && is_zero r
      then div_by_0
      else 0

  -- On operands without references, + - * / return an error exactly where neither operand is a text and
  -- either one is no number, or the right one is the zero of a division; the codes tell these apart.
  pub arithmetic_operate-code :
      (op : Arithmetic) (l r : QueryResult D)
      → code (arithmetic_operate d op l r) ≡ arithmetic_code op l r
  unfolding arithmetic_operate int_operate double_operate
  arithmetic_operate-code plus (int v) (int w) = refl
  arithmetic_operate-code plus (int v) (double w) = refl
  arithmetic_operate-code plus (double v) (int w) = refl
  arithmetic_operate-code plus (double v) (double w) = refl
  arithmetic_operate-code minus (int v) (int w) = refl
  arithmetic_operate-code minus (int v) (double w) = refl
  arithmetic_operate-code minus (double v) (int w) = refl
  arithmetic_operate-code minus (double v) (double w) = refl
  arithmetic_operate-code times (int v) (int w) = refl
  arithmetic_operate-code times (int v) (double w) = refl
  arithmetic_operate-code times (double v) (int w) = refl
  arithmetic_operate-code times (double v) (double w) = refl
  arithmetic_operate-code divide (int v) (int w) = ground arith
  arithmetic_operate-code divide (int v) (double w) = ground arith
  arithmetic_operate-code divide (double v) (int w) = ground arith
  arithmetic_operate-code divide (double v) (double w) = ground arith
  arithmetic_operate-code op l r = ground arith

  -- With a text on either side, each of the four operators joins the operands as texts.
  pub arithmetic_operate-string :
      (op : Arithmetic) (l r : QueryResult D)
      → (is_string d l || is_string d r) ≡ true
      → arithmetic_operate d op l r ≡ ok (string (as_string d l ++ as_string d r))
  unfolding arithmetic_operate
  arithmetic_operate-string op l r h = rw h refl

module _ {D : Type 0} where
  append_union :
      (ls : List (QueryResult D)) (r : QueryResult D)
      → AllSomething (as_bag r)
      → add ls r ≡ ls ++ as_bag r
  unfolding add_to_bag
  append_union [] r v = refl
  append_union (l ∷ ls) (bag rs) v = ap (λ xs. l ∷ ls ++ xs) (somethings_all (to_list rs) v)
  append_union (l ∷ ls) (sequence rs) v = ap (λ xs. l ∷ ls ++ xs) (somethings_all (to_list rs) v)
  append_union (l ∷ ls) r v = refl

  -- If no element on the right is nothing, the union holds the elements of the left bag and then those of
  -- the right one.
  pub union-append :
      (l r : QueryResult D) → AllSomething (as_bag r) → union l r ≡ as_bag l ++ as_bag r
  unfolding union
  union-append l r v = append_union (as_bag l) r v

  -- A result that a structure takes as one element.
  abbrev pub IsFlat : QueryResult D → Type 0
  IsFlat r = IsPlain r × ((type_of r == 8) ≡ false)

  abbrev pub AllFlat : List (QueryResult D) → Type 0
  AllFlat [] = Unit {0}
  AllFlat (r ∷ rs) = IsFlat r × AllFlat rs

  -- The pairs of an element with those of a list, and of two lists.
  abbrev pub pairs : QueryResult D → List (QueryResult D) → List (QueryResult D)
  pairs l [] = []
  pairs l (r ∷ rs) = structure (cons l (cons r nil)) ∷ pairs l rs

  abbrev pub product : List (QueryResult D) → List (QueryResult D) → List (QueryResult D)
  product [] rs = []
  product (l ∷ ls) rs = pairs l rs ++ product ls rs

  structure_flat :
      (xs : List (QueryResult D)) (r : QueryResult D)
      → IsFlat r
      → (add_to_structure xs r).0 ≡ xs ++ r ∷ []
  unfolding add_to_structure
  structure_flat xs (structure rs) f = ground arith
  structure_flat xs r f = ground arith

  pair_flat :
      (l r : QueryResult D) → IsFlat l → IsFlat r → pair l r ≡ structure (cons l (cons r nil))
  pair_flat l r f g = rw (structure_flat [] l f, structure_flat (l ∷ []) r g) refl

  add-pair :
      (final : List (QueryResult D)) (l r : QueryResult D)
      → IsFlat l
      → IsFlat r
      → add final (pair l r) ≡ final ++ structure (cons l (cons r nil)) ∷ []
  unfolding is_nothing
  add-pair final l r f g =
      ap (add final) (pair_flat l r f g)
      ∙ add_plain final (structure (cons l (cons r nil))) (refl, refl)

  pair_with-pairs :
      (final : List (QueryResult D)) (l : QueryResult D) (rs : List (QueryResult D))
      → IsFlat l
      → AllFlat rs
      → pair_with final l rs ≡ final ++ pairs l rs
  unfolding pair_with
  pair_with-pairs final l [] f v = sym (append-nil final)
  pair_with-pairs final l (r ∷ rs) f v =
      pair_with-pairs (add final (pair l r)) l rs f v.1
      ∙ ap (λ xs. xs ++ pairs l rs) (add-pair final l r f v.0)
      ∙ append_assoc final (structure (cons l (cons r nil)) ∷ []) (pairs l rs)

  pair_all-product :
      (final ls rs : List (QueryResult D))
      → AllFlat ls
      → AllFlat rs
      → pair_all final ls rs ≡ final ++ product ls rs
  unfolding pair_all
  pair_all-product final [] rs v w = sym (append-nil final)
  pair_all-product final (l ∷ ls) rs v w =
      pair_all-product (pair_with final l rs) ls rs v.1 w
      ∙ ap (λ xs. xs ++ product ls rs) (pair_with-pairs final l rs v.0 w)
      ∙ append_assoc final (pairs l rs) (product ls rs)

  -- The comma of two bags whose elements are single values holds every pair of an element of the left bag
  -- and one of the right, in this order.
  pub comma-product :
      (ls rs : List (QueryResult D)) → AllFlat ls → AllFlat rs → pair_all [] ls rs ≡ product ls rs
  comma-product ls rs v w = pair_all-product [] ls rs v w
