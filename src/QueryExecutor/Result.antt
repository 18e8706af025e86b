-- ===== src/QueryExecutor/Result.antt =====
-- src/QueryExecutor/QueryResult.cpp: the results of queries, their shape and their contents. A result
-- is a value, so an operation that changes one returns it; two pointers to one result are not
-- modelled. A binder has an item. Doubles are a type `D`.
pub mod Access
mod Examples
use loxim_stats.Base.{
  ℕ, zero, suc, ◌+◌, Bool, true, false, not, ◌||◌, Option, none, some, List, [], ◌∷◌, ◌++◌, length,
  get_elem?, if◌then◌else◌, ◌==◌,
}
use loxim_stats.Base.Int.{ℤ}
use loxim_stats.Base.Text.{Text}

-- A logical identifier is its number. A virtual object is seen as the text that toString prints for it.
mutual
  pub data QueryResult (D : Type 0) : Type 0 where
    reference : ℕ → Text → Bool → QueryResult D
    virtual : Text → QueryResult D
    string : Text → QueryResult D
    int : ℤ → QueryResult D
    double : D → QueryResult D
    boolean : Bool → QueryResult D
    binder : Text → QueryResult D → QueryResult D
    structure : Results D → QueryResult D
    bag : Results D → QueryResult D
    sequence : Results D → QueryResult D
    nothing : QueryResult D

  -- A vector of results.
  pub data Results (D : Type 0) : Type 0 where
    nil : Results D
    cons : QueryResult D → Results D → Results D

-- An int that is 0, or an error code.
pub data Answer {ℓ} (A : Type ℓ) : Type ℓ where
  ok : A → Answer A
  err : ℕ → Answer A

infixl 5 ◌>>=◌
abbrev pub ◌>>=◌ {ℓ κ} : {A : Type ℓ} {B : Type κ} → Answer A → (A → Answer B) → Answer B
ok a >>= f = f a
err e >>= f = err e

-- ErrQExecutor | …
abbrev pub number_expected : ℕ
number_expected = 0x1400C00

abbrev pub bool_expected : ℕ
bool_expected = 0x1400D00

abbrev pub ref_expected : ℕ
ref_expected = 0x1400E00

abbrev pub other_result_expected : ℕ
other_result_expected = 0x1400F00

abbrev pub unknown_node : ℕ
unknown_node = 0x1401100

abbrev pub empty_set : ℕ
empty_set = 0x1401200

abbrev pub div_by_0 : ℕ
div_by_0 = 0x1401300

module _ {D : Type 0} where
  abbrev pub to_list : Results D → List (QueryResult D)
  to_list nil = []
  to_list (cons r rs) = r ∷ to_list rs

  abbrev pub from_list : List (QueryResult D) → Results D
  from_list [] = nil
  from_list (r ∷ rs) = cons r (from_list rs)

  -- QueryResultType.
  abbrev pub type_of : QueryResult D → ℕ
  type_of (reference id key refed) = 1
  type_of (virtual text) = 2
  type_of (string value) = 3
  type_of (int value) = 4
  type_of (double value) = 5
  type_of (boolean value) = 6
  type_of (binder name item) = 7
  type_of (structure rs) = 8
  type_of (bag rs) = 9
  type_of (sequence rs) = 10
  type_of nothing = 11

  abbrev pub collection : QueryResult D → Bool
  collection (structure rs) = true
  collection (bag rs) = true
  collection (sequence rs) = true
  collection _ = false

  -- The results that a collection holds.
  abbrev pub elements : QueryResult D → List (QueryResult D)
  elements (structure rs) = to_list rs
  elements (bag rs) = to_list rs
  elements (sequence rs) = to_list rs
  elements _ = []

  abbrev pub no_elements : List (QueryResult D) → Bool
  no_elements [] = true
  no_elements (r ∷ rs) = false

  abbrev pub is_empty : QueryResult D → Bool
  is_empty (binder name item) = false
  is_empty r = no_elements (elements r)

  abbrev pub size : QueryResult D → ℕ
  size (binder name item) = 1
  size r = length (elements r)

-- Functions that look through collections of one element.
unfoldable mutual
  pub is_bool : {D : Type 0} → QueryResult D → Bool
  is_bool (boolean value) = true
  is_bool (binder name item) = is_bool item
  is_bool (structure rs) = is_bool_single rs
  is_bool (bag rs) = is_bool_single rs
  is_bool (sequence rs) = is_bool_single rs
  is_bool _ = false

  pub is_bool_single : {D : Type 0} → Results D → Bool
  is_bool_single nil = false
  is_bool_single (cons r nil) = is_bool r
  is_bool_single (cons r (cons s rs)) = false

unfoldable mutual
  pub is_reference_value : {D : Type 0} → QueryResult D → Bool
  is_reference_value (reference id key refed) = true
  is_reference_value (binder name item) = is_reference_value item
  is_reference_value (structure rs) = is_reference_single rs
  is_reference_value (bag rs) = is_reference_single rs
  is_reference_value (sequence rs) = is_reference_single rs
  is_reference_value _ = false

  pub is_reference_single : {D : Type 0} → Results D → Bool
  is_reference_single nil = false
  is_reference_single (cons r nil) = is_reference_value r
  is_reference_single (cons r (cons s rs)) = false

-- A binder is never nothing, whatever its item.
unfoldable mutual
  pub is_nothing : {D : Type 0} → QueryResult D → Bool
  is_nothing (structure rs) = is_nothing_single rs
  is_nothing (bag rs) = is_nothing_single rs
  is_nothing (sequence rs) = is_nothing_single rs
  is_nothing nothing = true
  is_nothing _ = false

  pub is_nothing_single : {D : Type 0} → Results D → Bool
  is_nothing_single nil = true
  is_nothing_single (cons r nil) = is_nothing r
  is_nothing_single (cons r (cons s rs)) = false

unfoldable mutual
  pub get_bool_value : {D : Type 0} → QueryResult D → Answer Bool
  get_bool_value (boolean value) = ok value
  get_bool_value (binder name item) = get_bool_value item
  get_bool_value (structure rs) = get_bool_single rs
  get_bool_value (bag rs) = get_bool_single rs
  get_bool_value (sequence rs) = get_bool_single rs
  get_bool_value _ = err bool_expected

  pub get_bool_single : {D : Type 0} → Results D → Answer Bool
  get_bool_single nil = err bool_expected
  get_bool_single (cons r nil) = get_bool_value r
  get_bool_single (cons r (cons s rs)) = err bool_expected

-- A new reference to the same object, without the key of an interface.
unfoldable mutual
  pub get_reference_value : {D : Type 0} → QueryResult D → Answer (QueryResult D)
  get_reference_value (reference id key refed) = ok (reference id [] false)
  get_reference_value (binder name item) = get_reference_value item
  get_reference_value (structure rs) = get_reference_single rs
  get_reference_value (bag rs) = get_reference_single rs
  get_reference_value (sequence rs) = get_reference_single rs
  get_reference_value _ = err ref_expected

  pub get_reference_single : {D : Type 0} → Results D → Answer (QueryResult D)
  get_reference_single nil = err ref_expected
  get_reference_single (cons r nil) = get_reference_value r
  get_reference_single (cons r (cons s rs)) = err ref_expected

module _ {D : Type 0} where
  -- The elements that are something.
  unfoldable pub somethings : List (QueryResult D) → List (QueryResult D)
  unfolding is_nothing
  somethings [] = []
  somethings (r ∷ rs) = if is_nothing r then somethings rs else r ∷ somethings rs

  -- The contents of the receiver with the argument added, and what is left of the argument: a bag or a
  -- sequence is taken apart by getResult, which leaves it empty.
  unfoldable pub add_to_sequence :
      List (QueryResult D) → QueryResult D → List (QueryResult D) × QueryResult D
  unfolding somethings
  add_to_sequence seq (sequence rs) = (seq ++ somethings (to_list rs), sequence nil)
  add_to_sequence seq (bag rs) = (seq ++ somethings (to_list rs), bag nil)
  add_to_sequence seq r = (seq ++ somethings (r ∷ []), r)

  -- An empty bag takes the vector of the argument as it is.
  unfoldable pub add_to_bag :
      List (QueryResult D) → QueryResult D → List (QueryResult D) × QueryResult D
  unfolding somethings
  add_to_bag [] (sequence rs) = (to_list rs, sequence rs)
  add_to_bag [] (bag rs) = (to_list rs, bag rs)
  add_to_bag (b ∷ bs) (sequence rs) = (b ∷ bs ++ somethings (to_list rs), sequence nil)
  add_to_bag (b ∷ bs) (bag rs) = (b ∷ bs ++ somethings (to_list rs), bag nil)
  add_to_bag bs r = (bs ++ somethings (r ∷ []), r)

  -- A structure is taken apart by `at`, which leaves it as it is.
  unfoldable pub add_to_structure :
      List (QueryResult D) → QueryResult D → List (QueryResult D) × QueryResult D
  unfolding somethings
  add_to_structure str (structure rs) = (str ++ somethings (to_list rs), structure rs)
  add_to_structure str r = (str ++ somethings (r ∷ []), r)

  abbrev with_elements :
      (List (QueryResult D) → QueryResult D)
      → List (QueryResult D) × QueryResult D
      → QueryResult D × QueryResult D
  with_elements build (rs, r) = (build rs, r)

  -- addResult: the receiver and the argument afterwards. Other results ignore it.
  unfoldable pub add_result : QueryResult D → QueryResult D → QueryResult D × QueryResult D
  unfolding add_to_sequence add_to_bag add_to_structure
  add_result (sequence rs) r =
      with_elements (λ xs. sequence (from_list xs)) (add_to_sequence (to_list rs) r)
  add_result (bag rs) r = with_elements (λ xs. bag (from_list xs)) (add_to_bag (to_list rs) r)
  add_result (structure rs) r =
      with_elements (λ xs. structure (from_list xs)) (add_to_structure (to_list rs) r)
  add_result s r = (s, r)

  -- getResult: the first element, and what is left.
  abbrev pub get_result : List (QueryResult D) → Answer (QueryResult D × List (QueryResult D))
  get_result [] = err empty_set
  get_result (r ∷ rs) = ok (r, rs)

  abbrev element_or_error : Option (QueryResult D) → Answer (QueryResult D)
  element_or_error none = err empty_set
  element_or_error (some r) = ok r

  unfoldable pub at : List (QueryResult D) → ℕ → Answer (QueryResult D)
  at rs i = element_or_error (get_elem? rs i)

  unfoldable pub last_elem : List (QueryResult D) → Answer (QueryResult D)
  last_elem [] = err empty_set
  last_elem (r ∷ rs) = at (r ∷ rs) (length rs)
