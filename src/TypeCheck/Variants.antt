-- ===== src/TypeCheck/Variants.antt =====
-- Which signatures the variant of a union lists.
use loxim_stats.Base.{◌≡◌, refl, false, arith}
use loxim_stats.TypeCheck.Signature.{
  Signature, Signatures, coll, atom, ref, void, stat_binder, nil, cons, s_var, s_seq, s_bag,
  s_struct, clone, clone_all, is_null,
}
use loxim_stats.TypeCheck.Generators.{append, first_only, add_to_my_list, create_var, add_variants}

-- The signatures that an argument brings.
abbrev pub variants : Signature → Signatures
variants (coll s_var a s) = clone_all s
variants sig = cons (clone sig) nil

abbrev pub listed : Signature → Signatures
listed (coll k a s) = s
listed sig = nil

added :
    (list : Signatures) (sig : Signature)
    → add_variants list sig ≡ add_to_my_list list (variants sig)
unfolding add_variants
added list (coll s_var a s) = refl
added list (coll s_seq a s) = refl
added list (coll s_bag a s) = refl
added list (coll s_struct a s) = refl
added list (atom k a) = refl
added list (ref n a) = refl
added list (void a) = refl
added list (stat_binder n a v) = refl

appended :
    (list new : Signatures)
    → is_null list ≡ false
    → add_to_my_list list new ≡ append list (first_only new)
appended nil new h = ground arith
appended (cons s rest) new h = refl

-- Where the left argument of a union brings a signature, the variant lists all that the left argument
-- brings, and of those of the right one only the first.
pub create_var-variants :
    (l r : Signature)
    → is_null (variants l) ≡ false
    → listed (create_var l r) ≡ append (variants l) (first_only (variants r))
unfolding create_var
create_var-variants l r h =
    rw (added nil l, added (variants l) r) (appended (variants l) (variants r) h)
