-- ===== src/TypeCheck/Signature.antt =====
-- src/QueryParser/Stack.h and Stack.cpp: signatures, the types of results. The list that the `next`
-- pointers make is a list of signatures; `refed`, the type's name, the cardinality and the kind of
-- collection are its attributes. dependsOn, which no decision reads, is not modelled.
use Prim.Native.String.{String}
use Prim.Native.Char.{code}
use loxim_stats.Base.{ℕ, zero, suc, Bool, true, false, not, ◌&&◌, [], ◌∷◌, ◌==◌, if◌then◌else◌}
use loxim_stats.Base.Int.{ℤ, pos, eqb_ℤ}
use loxim_stats.Base.Text.{Text}

-- The bytes of a text of the source.
abbrev pub text : String → Text
text String.[] = []
text (String.◌∷◌ c s) = code c ∷ text s

-- The byte at an index; 0, as at the end of a string, where there is none.
abbrev pub char_at : Text → ℕ → ℕ
char_at [] n = 0
char_at (c ∷ t) zero = c
char_at (c ∷ t) (suc n) = char_at t n

pub record Attributes : Type 0 where
  pub card : Text
  pub type_name : Text
  pub coll_kind : Text
  pub refed : Bool

-- The types of SigColl and of SigAtomType.
pub data CollType : Type 0 where
  s_seq s_bag s_struct s_var : CollType

pub data AtomType : Type 0 where
  s_int s_double s_string s_bool : AtomType

-- The value of a binder is a list, empty where the pointer is NULL.
mutual
  pub data Signature : Type 0 where
    coll : CollType → Attributes → Signatures → Signature
    atom : AtomType → Attributes → Signature
    ref : ℕ → Attributes → Signature
    void : Attributes → Signature
    stat_binder : Text → Attributes → Signatures → Signature

  pub data Signatures : Type 0 where
    nil : Signatures
    cons : Signature → Signatures → Signatures

abbrev pub init_attributes : Attributes
init_attributes = record { card = text "1..1"; type_name = []; coll_kind = []; refed = false }

abbrev pub coll_text : CollType → Text
coll_text s_seq = text "list"
coll_text s_bag = text "bag"
coll_text s_struct = text "struct"
coll_text s_var = text "variant"

abbrev pub atom_text : AtomType → Text
atom_text s_int = text "integer"
atom_text s_double = text "double"
atom_text s_string = text "string"
atom_text s_bool = text "boolean"

abbrev pub text_type : Signature → Text
text_type (coll k a s) = coll_text k
text_type (atom k a) = atom_text k
text_type (ref n a) = text "ref"
text_type (void a) = text "void"
text_type (stat_binder n a v) = text "binder"

-- SigType.
abbrev pub coll_number : CollType → ℕ
coll_number s_seq = 1
coll_number s_bag = 2
coll_number s_struct = 3
coll_number s_var = 11

abbrev pub atom_number : AtomType → ℕ
atom_number s_int = 5
atom_number s_double = 6
atom_number s_string = 7
atom_number s_bool = 8

abbrev pub type_number : Signature → ℕ
type_number (coll k a s) = coll_number k
type_number (atom k a) = atom_number k
type_number (ref n a) = 9
type_number (void a) = 10
type_number (stat_binder n a v) = 4

abbrev pub attributes : Signature → Attributes
attributes (coll k a s) = a
attributes (atom k a) = a
attributes (ref n a) = a
attributes (void a) = a
attributes (stat_binder n a v) = a

abbrev pub with_attributes : (Attributes → Attributes) → Signature → Signature
with_attributes f (coll k a s) = coll k (f a) s
with_attributes f (atom k a) = atom k (f a)
with_attributes f (ref n a) = ref n (f a)
with_attributes f (void a) = void (f a)
with_attributes f (stat_binder n a v) = stat_binder n (f a) v

abbrev pub empty_text : Text → Bool
empty_text [] = true
empty_text (c ∷ t) = false

abbrev pub kind_of_card : Text → Text → Text
kind_of_card card kind =
    if char_at card 3 == b'1'
    then []
    else if (char_at card 3 == b'*') && empty_text kind
    then text "bag"
    else kind

unfoldable pub set_card : Text → Attributes → Attributes
set_card c a = record a { card = c; coll_kind = kind_of_card c a.coll_kind }

abbrev pub set_type_name : Text → Attributes → Attributes
set_type_name t a = record a { type_name = t }

abbrev pub set_coll_kind : Text → Attributes → Attributes
set_coll_kind k a = record a { coll_kind = k }

abbrev pub set_refed : Attributes → Attributes
set_refed a = record a { refed = true }

-- The setters run in the source's order on the attributes that the new signature starts with.
unfoldable pub copy_attrs_of : Attributes → Attributes
unfolding set_card
copy_attrs_of a =
    let s =
      set_card a.card (set_coll_kind a.coll_kind (set_type_name a.type_name init_attributes)) in
    record s { refed = a.refed }

-- A clone is one of the signatures behind `next` too.
unfoldable mutual
  unfolding copy_attrs_of

  pub clone : Signature → Signature
  clone (coll k a s) = coll k (copy_attrs_of a) (clone_all s)
  clone (atom k a) = atom k (copy_attrs_of a)
  clone (ref n a) = ref n (copy_attrs_of a)
  clone (void a) = void (copy_attrs_of a)
  clone (stat_binder n a v) = stat_binder n (copy_attrs_of a) (clone_all v)

  pub clone_all : Signatures → Signatures
  clone_all nil = nil
  clone_all (cons s rest) = cons (clone s) (clone_all rest)

abbrev pub is_null : Signatures → Bool
is_null nil = true
is_null (cons s rest) = false

-- compareRecNamedSigCrt, which compares a reference with another signature by the data scheme,
-- answers 0 for success; isStructurallyEqualTo converts that number to a bool.
abbrev pub converted : ℤ → Bool
converted code = not (eqb_ℤ code (pos 0))

-- `next_equal` is the test on the signatures behind `next`; the other list is NULL where it is empty.
module _ (compare_rec : Signature → Signature → ℤ) where
  unfoldable mutual
    pub is_structurally_equal_to : Signature → (Signatures → Bool) → Signatures → Bool
    is_structurally_equal_to (coll k a s) next_equal nil = false
    is_structurally_equal_to (atom k a) next_equal nil = false
    is_structurally_equal_to (ref n a) next_equal nil = false
    is_structurally_equal_to (void a) next_equal nil = false
    is_structurally_equal_to (stat_binder m a v) next_equal nil = false
    is_structurally_equal_to (coll k a s) next_equal (cons (coll j b t) rest) =
        (coll_number k == coll_number j) && next_equal rest && all_structurally_equal_to s t
    is_structurally_equal_to (coll k a s) next_equal (cons sig rest) = false
    is_structurally_equal_to (atom k a) next_equal (cons sig rest) =
        (atom_number k == type_number sig) && next_equal rest
    is_structurally_equal_to (ref n a) next_equal (cons (ref m b) rest) =
        if n == m then next_equal rest else converted (compare_rec (ref n a) (ref m b))
    is_structurally_equal_to (ref n a) next_equal (cons sig rest) = false
    is_structurally_equal_to (void a) next_equal (cons sig rest) = type_number sig == 10
    is_structurally_equal_to (stat_binder m a v) next_equal (cons (stat_binder n b w) rest) =
        all_structurally_equal_to v w && next_equal rest
    is_structurally_equal_to (stat_binder m a v) next_equal (cons sig rest) =
        not (is_null v) && all_structurally_equal_to v (cons sig rest) && next_equal rest

    pub all_structurally_equal_to : Signatures → Signatures → Bool
    all_structurally_equal_to nil other = is_null other
    all_structurally_equal_to (cons s rest) other =
        is_structurally_equal_to s (all_structurally_equal_to rest) other

  abbrev pub structurally_equal : Signature → Signature → Bool
  structurally_equal l r = all_structurally_equal_to (cons l nil) (cons r nil)
