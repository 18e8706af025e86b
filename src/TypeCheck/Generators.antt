-- ===== src/TypeCheck/Generators.antt =====
-- src/TypeCheck/DecisionTable.cpp: the generators of signatures and of their attributes that the rules
-- name. The checks of insert and assign against the data scheme are an argument.
use loxim_stats.Base.{
  ℕ, Bool, false, ◌||◌, ◌&&◌, not, Option, some, [], ◌∷◌, ◌++◌, ◌==◌, if◌then◌else◌,
}
use loxim_stats.Base.Int.{ℤ, pos, ◌+ℤ◌, ◌-ℤ◌, ◌*ℤ◌}
use loxim_stats.Base.Text.{Text}
use loxim_stats.QueryExecutor.Algebraic.{show_int}
use loxim_stats.TypeCheck.Signature.{
  Signature, Signatures, coll, nil, cons, s_struct, s_var, text, char_at, init_attributes,
  with_attributes, set_card, clone, clone_all,
}
use loxim_stats.TypeCheck.Result.{TypeCheckResult}

pub data AttrGenerator : Type 0 where
  cd_addbands cd_multbands arg_copy_l arg_copy_r cd_copy_l_zr cd_intst : AttrGenerator

pub data SigGenerator : Type 0 where
  bs_copy_l bs_copy_r bs_struct bs_to_var bs_ins_bnd bs_ins_ref bs_assign : SigGenerator

-- A character minus '0'.
unfoldable pub digit : ℕ → ℤ
unfolding ◌+ℤ◌ ◌-ℤ◌ ◌*ℤ◌
digit c = pos c -ℤ pos 48

abbrev pub above_1 : ℤ → Bool
above_1 (pos v) = not ((v == 0) || (v == 1))
above_1 z = false

abbrev pub dots : Text → Text → Text
dots low high = low ++ b'.' ∷ b'.' ∷ high

unfoldable pub add_low : ℕ → ℕ → Text
unfolding digit ◌+ℤ◌
add_low l r = let sum = digit l +ℤ digit r in if above_1 sum then text "1" else show_int sum

unfoldable pub add_high : ℕ → ℕ → Text
unfolding digit ◌+ℤ◌
add_high l r =
    let sum = digit l +ℤ digit r in
    if (l == b'*') || (r == b'*') then text "*" else if above_1 sum then text "*" else show_int sum

unfoldable pub cd_add_bands : Text → Text → Text
unfolding add_low add_high
cd_add_bands l r = dots (add_low (char_at l 0) (char_at r 0)) (add_high (char_at l 3) (char_at r 3))

unfoldable pub cd_copy_left_with_zero : Text → Text → Text
cd_copy_left_with_zero l r = dots (text "0") (char_at l 3 ∷ [])

unfoldable pub multiply_bound : ℕ → ℕ → Text
unfolding digit ◌*ℤ◌
multiply_bound l r =
    if (l == b'0') || (r == b'0')
    then text "0"
    else if (l == b'*') || (r == b'*')
    then text "*"
    else show_int (digit l *ℤ digit r)

unfoldable pub cd_multiply_bands : Text → Text → Text
unfolding multiply_bound
cd_multiply_bands l r =
    dots (multiply_bound (char_at l 0) (char_at r 0)) (multiply_bound (char_at l 3) (char_at r 3))

abbrev pub intersect_high : ℕ → ℕ → Text
intersect_high l r =
    if (l == b'*') && (r == b'*')
    then text "*"
    else if (l == b'0') || (r == b'0')
    then text "0"
    else text "1"

unfoldable pub cd_intersect : Text → Text → Text
cd_intersect l r = dots (text "0") (intersect_high (char_at l 3) (char_at r 3))

unfoldable pub do_attr : AttrGenerator → Text → Text → Text
unfolding cd_add_bands cd_copy_left_with_zero cd_multiply_bands cd_intersect
do_attr cd_addbands l r = cd_add_bands l r
do_attr cd_multbands l r = cd_multiply_bands l r
do_attr arg_copy_l l r = l
do_attr arg_copy_r l r = r
do_attr cd_copy_l_zr l r = cd_copy_left_with_zero l r
do_attr cd_intst l r = cd_intersect l r

-- addToMyList cuts off what stands behind the new element, unless the list is empty.
abbrev pub first_only : Signatures → Signatures
first_only nil = nil
first_only (cons s rest) = cons s nil

abbrev pub append : Signatures → Signatures → Signatures
append nil t = t
append (cons s rest) t = cons s (append rest t)

abbrev pub add_to_my_list : Signatures → Signatures → Signatures
add_to_my_list nil new = new
add_to_my_list s new = append s (first_only new)

-- One argument of createVar: a variant adds its own list.
unfoldable pub add_variants : Signatures → Signature → Signatures
unfolding clone
add_variants list (coll s_var a s) = add_to_my_list list (clone_all s)
add_variants list sig = add_to_my_list list (cons (clone sig) nil)

unfoldable pub create_var : Signature → Signature → Signature
unfolding add_variants
create_var l r = coll s_var init_attributes (add_variants (add_variants nil l) r)

-- The two arguments, which a generator may change, and what it answers.
pub record Generated : Type 0 where
  pub l_sig : Signature
  pub r_sig : Signature
  pub sig : Option Signature
  pub ret_result : TypeCheckResult

-- doStruct sets the cardinality of the arguments themselves.
unfoldable pub do_struct : Signature → Signature → TypeCheckResult → Generated
unfolding set_card
do_struct l r res =
    let left = with_attributes (set_card (text "1..1")) l in
    let right = with_attributes (set_card (text "1..1")) r in
    record {
      l_sig = left;
      r_sig = right;
      sig = some (coll s_struct init_attributes (cons left (cons right nil)));
      ret_result = res;
    }

abbrev pub Check : Type 0
Check = Signature → Signature → TypeCheckResult → Option Signature × TypeCheckResult

-- The checks that look into the data scheme, and the comparison of references to two of its types.
pub record SchemeChecks : Type 0 where
  pub insert_bnd_check : Check
  pub insert_ref_check : Check
  pub assign_check : Check
  pub compare_rec : Signature → Signature → ℤ

abbrev pub unchanged : Signature → Signature → Option Signature × TypeCheckResult → Generated
unchanged l r (s, res) = record { l_sig = l; r_sig = r; sig = s; ret_result = res }

unfoldable pub do_sig :
    SchemeChecks → SigGenerator → Signature → Signature → TypeCheckResult → Generated
unfolding clone create_var do_struct
do_sig k bs_copy_l l r res = unchanged l r (some (clone l), res)
do_sig k bs_copy_r l r res = unchanged l r (some (clone r), res)
do_sig k bs_struct l r res = do_struct l r res
do_sig k bs_to_var l r res = unchanged l r (some (create_var l r), res)
do_sig k bs_ins_bnd l r res = unchanged l r (k.insert_bnd_check l r res)
do_sig k bs_ins_ref l r res = unchanged l r (k.insert_ref_check l r res)
do_sig k bs_assign l r res = unchanged l r (k.assign_check l r res)
