-- ===== src/QueryExecutor/Result/Access.antt =====
-- Which results have a Boolean or a reference in them, and what adding results keeps.
use loxim_stats.Base.{ℕ, ◌≡◌, refl, false, List, [], ◌∷◌, ◌++◌, if◌then◌else◌, arith}
use loxim_stats.QueryExecutor.Result.{
  QueryResult, Results, reference, virtual, string, int, double, boolean, binder, structure, bag,
  sequence, nothing, nil, cons, to_list, elements, Answer, ok, err, bool_expected, ref_expected,
  is_bool, get_bool_value, is_reference_value, get_reference_value, is_nothing, somethings,
  add_to_sequence, add_to_bag, add_to_structure, is_bool_single, get_bool_single,
  is_reference_single, get_reference_single,
}

-- The int that a C++ function returns.
abbrev pub code {ℓ} : {A : Type ℓ} → Answer A → ℕ
code (ok a) = 0
code (err e) = e

mutual
  unfolding is_bool get_bool_value

  bool_code :
      {D : Type 0} (r : QueryResult D)
      → code (get_bool_value r) ≡ (if is_bool r then 0 else bool_expected)
  bool_code (boolean value) = refl
  bool_code (binder name item) = bool_code item
  bool_code (structure rs) = bool_codes rs
  bool_code (bag rs) = bool_codes rs
  bool_code (sequence rs) = bool_codes rs
  bool_code (reference id key refed) = refl
  bool_code (virtual text) = refl
  bool_code (string value) = refl
  bool_code (int value) = refl
  bool_code (double value) = refl
  bool_code nothing = refl

  bool_codes :
      {D : Type 0} (rs : Results D)
      → code (get_bool_single rs) ≡ (if is_bool_single rs then 0 else bool_expected)
  bool_codes nil = refl
  bool_codes (cons r nil) = bool_code r
  bool_codes (cons r (cons s rs)) = refl

mutual
  unfolding is_reference_value get_reference_value

  reference_code :
      {D : Type 0} (r : QueryResult D)
      → code (get_reference_value r) ≡ (if is_reference_value r then 0 else ref_expected)
  reference_code (reference id key refed) = refl
  reference_code (binder name item) = reference_code item
  reference_code (structure rs) = reference_codes rs
  reference_code (bag rs) = reference_codes rs
  reference_code (sequence rs) = reference_codes rs
  reference_code (boolean value) = refl
  reference_code (virtual text) = refl
  reference_code (string value) = refl
  reference_code (int value) = refl
  reference_code (double value) = refl
  reference_code nothing = refl

  reference_codes :
      {D : Type 0} (rs : Results D)
      → code (get_reference_single rs) ≡ (if is_reference_single rs then 0 else ref_expected)
  reference_codes nil = refl
  reference_codes (cons r nil) = reference_code r
  reference_codes (cons r (cons s rs)) = refl

-- getBoolValue and getReferenceValue return 0 exactly where isBool and isReferenceValue answer true, and
-- their one error code elsewhere, however deep the value stands.
pub get_value-is_value :
    {D : Type 0} (r : QueryResult D)
    → (code (get_bool_value r) ≡ (if is_bool r then 0 else bool_expected))
      × (code (get_reference_value r) ≡ (if is_reference_value r then 0 else ref_expected))
get_value-is_value r = (bool_code r, reference_code r)

module _ {D : Type 0} where
  -- No element is nothing.
  abbrev pub AllSomething : List (QueryResult D) → Type 0
  AllSomething [] = Unit {0}
  AllSomething (r ∷ rs) = (is_nothing r ≡ false) × AllSomething rs

  pub AllSomething-append :
      (xs ys : List (QueryResult D)) → AllSomething xs → AllSomething ys → AllSomething (xs ++ ys)
  AllSomething-append [] ys v w = w
  AllSomething-append (x ∷ xs) ys v w = (v.0, AllSomething-append xs ys v.1 w)

  pub somethings-AllSomething : (xs : List (QueryResult D)) → AllSomething (somethings xs)
  unfolding somethings
  somethings-AllSomething [] = tt
  somethings-AllSomething (x ∷ xs) = ground (arith, somethings-AllSomething xs)

  pub somethings_all : (xs : List (QueryResult D)) → AllSomething xs → somethings xs ≡ xs
  unfolding somethings
  somethings_all [] v = refl
  somethings_all (x ∷ xs) v = rw (v.0, somethings_all xs v.1) refl

  add_somethings :
      (xs ys : List (QueryResult D)) → AllSomething xs → AllSomething (xs ++ somethings ys)
  add_somethings xs ys v = AllSomething-append xs (somethings ys) v (somethings-AllSomething ys)

  bag_keeps :
      (xs : List (QueryResult D)) (r : QueryResult D)
      → AllSomething xs
      → AllSomething (elements r)
      → AllSomething (add_to_bag xs r).0
  unfolding add_to_bag
  bag_keeps [] (bag rs) v w = w
  bag_keeps [] (sequence rs) v w = w
  bag_keeps (x ∷ xs) (bag rs) v w = add_somethings (x ∷ xs) (to_list rs) v
  bag_keeps (x ∷ xs) (sequence rs) v w = add_somethings (x ∷ xs) (to_list rs) v
  bag_keeps xs r v w = add_somethings xs (r ∷ []) v

  sequence_keeps :
      (xs : List (QueryResult D)) (r : QueryResult D)
      → AllSomething xs
      → AllSomething (add_to_sequence xs r).0
  unfolding add_to_sequence
  sequence_keeps xs (bag rs) v = add_somethings xs (to_list rs) v
  sequence_keeps xs (sequence rs) v = add_somethings xs (to_list rs) v
  sequence_keeps xs r v = add_somethings xs (r ∷ []) v

  structure_keeps :
      (xs : List (QueryResult D)) (r : QueryResult D)
      → AllSomething xs
      → AllSomething (add_to_structure xs r).0
  unfolding add_to_structure
  structure_keeps xs (structure rs) v = add_somethings xs (to_list rs) v
  structure_keeps xs r v = add_somethings xs (r ∷ []) v

  -- Adding a result to a sequence or a structure without nothing among its elements leaves it so, whatever
  -- is added; a bag stays so if the elements of what is added are something, since an empty bag
  -- takes the vector of its argument unread.
  pub add_result-AllSomething :
      (xs : List (QueryResult D)) (r : QueryResult D)
      → AllSomething xs
      → AllSomething (elements r)
      → AllSomething (add_to_sequence xs r).0
        × AllSomething (add_to_structure xs r).0
        × AllSomething (add_to_bag xs r).0
  add_result-AllSomething xs r v w =
      (sequence_keeps xs r v, structure_keeps xs r v, bag_keeps xs r v w)
