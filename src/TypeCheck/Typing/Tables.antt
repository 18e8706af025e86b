-- ===== src/TypeCheck/Typing/Tables.antt =====
-- The tables on atoms answer the type that the evaluation has.
use loxim_stats.Base.{◌≡◌, refl, ◌∙◌, Bool, true, false, ◌||◌, ◌&&◌, Option, none, some, arith}
use loxim_stats.QueryExecutor.Arithmetic.{plus, minus, times, divide}
use loxim_stats.QueryExecutor.Algebraic.{
  AlgOp, arithmetic, comparison, connective, eq, neq, lt, gt, le, ge, bag_union, bag_operator,
  comma, semicolon,
}
use loxim_stats.TypeCheck.Signature.{AtomType, s_int, s_double, s_string, s_bool, atom, Attributes}
use loxim_stats.TypeCheck.Result.{TypeCheckResult, new_result, is_error}
use loxim_stats.TypeCheck.Generators.{SchemeChecks}
use loxim_stats.TypeCheck.Rule.{base}
use loxim_stats.TypeCheck.Decision.{get_result, apply_ruleset}
use loxim_stats.TypeCheck.Decision.Kept.{Kept}
use loxim_stats.TypeCheck.Decision.Whole.{atom_of_sig, get_result-Kept, attribute_rules}
use loxim_stats.TypeCheck.Tables.{init_alg_op_rules}
use loxim_stats.TypeCheck.Typing.{eqb_atom, result_type, is_scalar, is_exception, accepts}

abbrev on_each : (AtomType → Bool) → Bool
on_each p = p s_int && p s_double && p s_string && p s_bool

abbrev on_pairs : (AtomType → AtomType → Bool) → Bool
on_pairs p = on_each (λ a. on_each (p a))

every_atom : (p : AtomType → Bool) → on_each p ≡ true → (a : AtomType) → p a ≡ true
every_atom p h s_int = ground arith
every_atom p h s_double = ground arith
every_atom p h s_string = ground arith
every_atom p h s_bool = ground arith

every_pair : (p : AtomType → AtomType → Bool) → on_pairs p ≡ true → (a b : AtomType) → p a b ≡ true
every_pair p h a b = every_atom (p a) (every_atom (λ a. on_each (p a)) h a) b

abbrev is_type : Option AtomType → AtomType → Bool
is_type none t = false
is_type (some s) t = eqb_atom s t

module _ (k : SchemeChecks) where
  unfoldable pub base_result :
      AlgOp → Attributes → Attributes → AtomType → AtomType → TypeCheckResult
  unfolding apply_ruleset init_alg_op_rules
  base_result op m n a b =
      (apply_ruleset k base (atom a m) (atom b n) new_result (init_alg_op_rules op).rules).final

  -- The rules on the base give the type, or an error, or leave a check to the evaluation.
  unfoldable agrees : AlgOp → Attributes → Attributes → AtomType → AtomType → Bool
  unfolding base_result
  agrees op m n a b =
      let r = base_result op m n a b in
      is_error r
      || r.dyn_ctrl
      || is_exception op a b
      || (accepts op a b && is_type (atom_of_sig r.result_sig) (result_type op a b))

  agrees-scalar :
      (op : AlgOp) (m n : Attributes) (a b : AtomType)
      → is_scalar op ≡ true
      → agrees op m n a b ≡ true
  unfolding agrees
  agrees-scalar (arithmetic plus) m n a b h = every_pair (agrees (arithmetic plus) m n) refl a b
  agrees-scalar (arithmetic minus) m n a b h = every_pair (agrees (arithmetic minus) m n) refl a b
  agrees-scalar (arithmetic times) m n a b h = every_pair (agrees (arithmetic times) m n) refl a b
  agrees-scalar (arithmetic divide) m n a b h = every_pair (agrees (arithmetic divide) m n) refl a b
  agrees-scalar (comparison eq) m n a b h = every_pair (agrees (comparison eq) m n) refl a b
  agrees-scalar (comparison neq) m n a b h = every_pair (agrees (comparison neq) m n) refl a b
  agrees-scalar (comparison lt) m n a b h = every_pair (agrees (comparison lt) m n) refl a b
  agrees-scalar (comparison gt) m n a b h = every_pair (agrees (comparison gt) m n) refl a b
  agrees-scalar (comparison le) m n a b h = every_pair (agrees (comparison le) m n) refl a b
  agrees-scalar (comparison ge) m n a b h = every_pair (agrees (comparison ge) m n) refl a b
  agrees-scalar (connective op) m n a b h = every_pair (agrees (connective op) m n) refl a b
  agrees-scalar bag_union m n a b h = ground arith
  agrees-scalar (bag_operator op) m n a b h = ground arith
  agrees-scalar comma m n a b h = ground arith
  agrees-scalar semicolon m n a b h = ground arith

unfoldable pub checked_operator :
    SchemeChecks → AlgOp → AtomType → Attributes → AtomType → Attributes → TypeCheckResult
unfolding get_result init_alg_op_rules
checked_operator k op a m b n =
    (get_result k (init_alg_op_rules op) (atom a m) (atom b n) new_result).final

last_of :
    (p q r t : Bool) → (p || q || r || t) ≡ true → p ≡ false → q ≡ false → r ≡ false → t ≡ true
last_of p q r t h a b c = ground arith

both_of : (p q : Bool) → (p && q) ≡ true → (p ≡ true) × (q ≡ true)
both_of p q h = (ground arith, ground arith)

attribute_rules-scalar :
    (op : AlgOp) → is_scalar op ≡ true → attribute_rules (init_alg_op_rules op) ≡ true
unfolding init_alg_op_rules
attribute_rules-scalar (arithmetic op) h = refl
attribute_rules-scalar (comparison eq) h = refl
attribute_rules-scalar (comparison neq) h = refl
attribute_rules-scalar (comparison lt) h = refl
attribute_rules-scalar (comparison gt) h = refl
attribute_rules-scalar (comparison le) h = refl
attribute_rules-scalar (comparison ge) h = refl
attribute_rules-scalar (connective op) h = refl
attribute_rules-scalar op h = ground arith

is_type→eq : (s : Option AtomType) (t : AtomType) → is_type s t ≡ true → s ≡ some t
is_type→eq none t h = ground arith
is_type→eq (some s_int) s_int h = refl
is_type→eq (some s_double) s_double h = refl
is_type→eq (some s_string) s_string h = refl
is_type→eq (some s_bool) s_bool h = refl
is_type→eq (some s) t h = ground arith

-- The atom that a table answers is the one that its rules on the base make.
pub checked_atom :
    (k : SchemeChecks) (op : AlgOp) (a b : AtomType) (m n : Attributes)
    → is_scalar op ≡ true
    → atom_of_sig (checked_operator k op a m b n).result_sig
      ≡ atom_of_sig (base_result k op m n a b).result_sig
unfolding checked_operator base_result
checked_atom k op a b m n s =
    (get_result-Kept k (init_alg_op_rules op) (attribute_rules-scalar op s) (atom a m) (atom b n)
      new_result).same

module _ (k : SchemeChecks) (op : AlgOp) (a b : AtomType) (m n : Attributes)
    (s : is_scalar op ≡ true) (e : is_exception op a b ≡ false)
    (sound : is_error (checked_operator k op a m b n) ≡ false)
    (certain : (checked_operator k op a m b n).dyn_ctrl ≡ false) where
  base-Kept : Kept atom_of_sig (base_result k op m n a b) (checked_operator k op a m b n)
  unfolding checked_operator base_result
  base-Kept =
      get_result-Kept k (init_alg_op_rules op) (attribute_rules-scalar op s) (atom a m) (atom b n)
        new_result

  pub checked_operator-type :
      (accepts op a b ≡ true)
      × (atom_of_sig (checked_operator k op a m b n).result_sig ≡ some (result_type op a b))
  unfolding agrees
  checked_operator-type =
      let left =
        last_of _ _ _ _ (agrees-scalar k op m n a b s) (base-Kept.same_error sound)
          (base-Kept.same_dynamic certain) e in
      ((both_of _ _ left).0, base-Kept.same ∙ is_type→eq _ _ (both_of _ _ left).1)
