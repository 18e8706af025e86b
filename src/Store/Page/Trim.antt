-- ===== src/Store/Page/Trim.antt =====
-- The table of a page after a deletion: cutting off entries of empty objects (DBStoreManager.cpp).
use loxim_stats.Base.{
  ℕ, zero, suc, ◌+◌, ◌-◌, ◌*◌, ◌≤◌, ◌<◌, ◌≡◌, refl, ap, subst, sym, ◌∙◌, ◌⊎◌, inl, inr, List, [],
  ◌∷◌, ◌++◌, arith, length, length-append, take, ltb, leb, ◌==◌, if◌then◌else◌, Bool-cases, ltb→lt,
  ltb→ge, gt→leb, le→leb, ge→ltb, ==→eq,
}
use loxim_stats.Store.Page.Memory.{Bytes, read, read_cons, read_nil}
use loxim_stats.Store.Page.Contents.{contents, Descending, trim_objects, cons_trim}
use loxim_stats.Store.Page.{
  store_pagesize, sizeof_int, last_offset, offset_at, trim_end, trim_first, trim_table, drop_entry,
}

-- The same by recursion from the front.
pub trim_offsets : ℕ → List ℕ → List ℕ
trim_offsets prev [] = []
trim_offsets prev (o ∷ os) = elim (trim_offsets o os) [
  | [] ↦ if o == prev then [] else o ∷ []
  | x ∷ xs ↦ o ∷ x ∷ xs
]

List-cases : (xs : List ℕ) → (xs ≡ []) ⊎ ((y : ℕ) × (ys : List ℕ) × (xs ≡ y ∷ ys))
List-cases [] = inl refl
List-cases (y ∷ ys) = inr (y, ys, refl)

snoc_cases : (xs : List ℕ) → (xs ≡ []) ⊎ ((ys : List ℕ) × (y : ℕ) × (xs ≡ ys ++ y ∷ []))
snoc_cases [] = inl refl
snoc_cases (x ∷ xs) = elim (snoc_cases xs) [
  | inl e ↦ inr ([], x, ap (λ l. x ∷ l) e)
  | inr (ys, y, e) ↦ inr (x ∷ ys, y, ap (λ l. x ∷ l) e)
]

trim_offsets-snoc_same :
    (prev b : ℕ) (os : List ℕ)
    → b ≡ last_offset prev os
    → trim_offsets prev (os ++ b ∷ []) ≡ trim_offsets prev os
unfolding trim_offsets
trim_offsets-snoc_same prev b [] e = ground arith
trim_offsets-snoc_same prev b (o ∷ os) e = rw (trim_offsets-snoc_same o b os e)

trim_offsets-snoc_less :
    (prev b : ℕ) (os : List ℕ)
    → b < last_offset prev os
    → trim_offsets prev (os ++ b ∷ []) ≡ os ++ b ∷ []
unfolding trim_offsets
trim_offsets-snoc_less prev b [] h = ground arith
trim_offsets-snoc_less prev b (o ∷ []) h = ground arith
trim_offsets-snoc_less prev b (o ∷ o' ∷ os) h = rw (trim_offsets-snoc_less o b (o' ∷ os) h)

pub length-trim_offsets : (prev : ℕ) (os : List ℕ) → length (trim_offsets prev os) ≤ length os
unfolding trim_offsets
length-trim_offsets prev [] = omega arith
length-trim_offsets prev (o ∷ os) = elim (List-cases (trim_offsets o os)) [
  | inl e ↦ rw e (ground arith)
  | inr (y, ys, e) ↦ rw e (omega (arith, length-trim_offsets o os, ap length e))
]

pub Descending-trim_offsets :
    (prev : ℕ) (os : List ℕ) → Descending prev os → Descending prev (trim_offsets prev os)
unfolding trim_offsets
Descending-trim_offsets prev [] d = tt
Descending-trim_offsets prev (o ∷ os) d = elim (List-cases (trim_offsets o os)) [
  | inl e ↦ rw e (ground arith)
  | inr (y, ys, e) ↦ rw e (d.0, rw e at (Descending-trim_offsets o os d.1))
]

pub last_offset-trim_offsets :
    (prev : ℕ) (os : List ℕ) → last_offset prev (trim_offsets prev os) ≡ last_offset prev os
unfolding trim_offsets
last_offset-trim_offsets prev [] = refl
last_offset-trim_offsets prev (o ∷ os) = elim (List-cases (trim_offsets o os)) [
  | inl e ↦ rw e (ground (arith, rw e at (last_offset-trim_offsets o os)))
  | inr (y, ys, e) ↦ rw e (rw e at (last_offset-trim_offsets o os))
]

cons_trim-cons : (obj x : List ℕ) (xs : List (List ℕ)) → cons_trim obj (x ∷ xs) ≡ obj ∷ x ∷ xs
cons_trim-cons [] x xs = refl
cons_trim-cons (b ∷ bs) x xs = refl

cons_trim-one :
    (m : Bytes) (prev o : ℕ)
    → o ≤ prev
    → contents m prev (if o == prev then [] else o ∷ []) ≡ cons_trim (read m o (prev - o)) []
unfolding contents
cons_trim-one m prev o h = elim (Bool-cases (o == prev)) [
  | inl e ↦ rw (e, read_nil m o (prev - o) (omega (arith, ==→eq o prev e)))
  | inr n ↦ rw (n, read_cons m o (prev - o) (ground arith))
]

-- The objects of the shorter table.
pub contents-trim_offsets :
    (m : Bytes) (prev : ℕ) (os : List ℕ)
    → Descending prev os
    → contents m prev (trim_offsets prev os) ≡ trim_objects (contents m prev os)
unfolding contents trim_offsets
contents-trim_offsets m prev [] d = refl
contents-trim_offsets m prev (o ∷ os) d = elim (List-cases (trim_offsets o os)) [
  | inl e ↦
      let rest : trim_objects (contents m o os) ≡ [] =
        sym (contents-trim_offsets m o os d.1) ∙ ap (contents m o) e in
      rw (e, rest) (cons_trim-one m prev o d.0)
  | inr (y, ys, e) ↦
      let rest : trim_objects (contents m o os) ≡ contents m o (y ∷ ys) =
        sym (contents-trim_offsets m o os d.1) ∙ ap (contents m o) e in
      rw (e, rest) (sym (cons_trim-cons (read m o (prev - o)) _ _))
]

pub offset_at-append : (os : List ℕ) (b : ℕ) → offset_at (os ++ b ∷ []) (length os) ≡ b
offset_at-append [] b = refl
offset_at-append (o ∷ os) b = offset_at-append os b

offset_at-last :
    (prev i : ℕ) (os : List ℕ) (b : ℕ)
    → length os ≡ suc i
    → offset_at (os ++ b ∷ []) i ≡ last_offset prev os
offset_at-last prev i [] b e = absurd (omega arith)
offset_at-last prev zero (o ∷ []) b e = refl
offset_at-last prev (suc i) (o ∷ []) b e = absurd (omega arith)
offset_at-last prev zero (o ∷ o' ∷ os) b e = absurd (omega arith)
offset_at-last prev (suc i) (o ∷ o' ∷ os) b e = offset_at-last o i (o' ∷ os) b (omega arith)

take-append : (os : List ℕ) (b n : ℕ) → n ≡ length os → take n (os ++ b ∷ []) ≡ os
take-append [] b zero e = refl
take-append [] b (suc n) e = absurd (omega arith)
take-append (o ∷ os) b zero e = absurd (omega arith)
take-append (o ∷ os) b (suc n) e = ap (λ l. o ∷ l) (take-append os b n (omega arith))

Descending-snoc :
    (prev b : ℕ) (os : List ℕ)
    → Descending prev (os ++ b ∷ [])
    → Descending prev os × (b ≤ last_offset prev os)
Descending-snoc prev b [] d = (tt, d.0)
Descending-snoc prev b (o ∷ os) d = let r = Descending-snoc o b os d.1 in ((d.0, r.0), r.1)

abbrev pub cut : List ℕ → ℕ → List ℕ × ℕ
cut os free =
    let left = trim_offsets store_pagesize os in
    (left, free + sizeof_int * (length os - length left))

trim_end-snoc :
    (i : ℕ) (os : List ℕ) (b free : ℕ)
    → length os ≡ suc i
    → trim_end (suc i) (os ++ b ∷ []) free ≡ (
        if leb (last_offset store_pagesize os) b
        then (if ltb (last_offset store_pagesize os) b
            then (os ++ b ∷ [], free)
            else trim_end i os (free + sizeof_int))
        else (os ++ b ∷ [], free))
unfolding trim_end
trim_end-snoc i os b free e = rw (
  take-append os b (suc i) (sym e),
  offset_at-last store_pagesize i os b e,
  sym (ap (offset_at (os ++ b ∷ [])) e) ∙ offset_at-append os b,
)

trim_first_long : (os : List ℕ) (free : ℕ) → 2 ≤ length os → trim_first (os, free) ≡ (os, free)
unfolding trim_first
trim_first_long [] free h = absurd (omega arith)
trim_first_long (o ∷ []) free h = absurd (omega arith)
trim_first_long (o ∷ o' ∷ os) free h = refl

cut_same :
    (os : List ℕ) (b free : ℕ)
    → b ≡ last_offset store_pagesize os
    → cut (os ++ b ∷ []) free ≡ cut os (free + sizeof_int)
cut_same os b free e = rw (trim_offsets-snoc_same store_pagesize b os e) (
    ap (λ n. (trim_offsets store_pagesize os, n))
      (omega (arith, length-append os (b ∷ []), length-trim_offsets store_pagesize os)))

cut_less :
    (os : List ℕ) (b free : ℕ)
    → b < last_offset store_pagesize os
    → cut (os ++ b ∷ []) free ≡ (os ++ b ∷ [], free)
cut_less os b free h =
    rw (trim_offsets-snoc_less store_pagesize b os h) (ap (λ n. (os ++ b ∷ [], n)) (omega arith))

trim_end-cut_snoc :
    (i : ℕ) (ys : List ℕ) (b free : ℕ)
    → Descending store_pagesize (ys ++ b ∷ [])
    → length (ys ++ b ∷ []) ≡ suc (suc i)
    → trim_first (trim_end i ys (free + sizeof_int)) ≡ cut ys (free + sizeof_int)
    → trim_first (trim_end (suc i) (ys ++ b ∷ []) free) ≡ cut (ys ++ b ∷ []) free
trim_end-cut_snoc i ys b free d e ih = elim (Bool-cases (ltb b last)) [
  | inl lt ↦
      rw (trim_end-snoc i ys b free count, gt→leb last b (ltb→lt b last lt))
        (trim_first_long (ys ++ b ∷ []) free (omega (arith, e))
          ∙ sym (cut_less ys b free (ltb→lt b last lt)))
  | inr ge ↦
      rw
        (
          trim_end-snoc i ys b free count,
          le→leb last b (ltb→ge b last ge),
          ge→ltb last b (Descending-snoc store_pagesize b ys d).1,
        )
        (ih
          ∙ sym (
              cut_same ys b free
                (omega (arith, ltb→ge b last ge, (Descending-snoc store_pagesize b ys d).1))))
]
  where
    last : ℕ
    last = last_offset store_pagesize ys

    count : length ys ≡ suc i
    count = omega (arith, e, length-append ys (b ∷ []))

trim_end-cut_rest :
    (i : ℕ) (os : List ℕ) (free : ℕ)
    → ((ys : List ℕ)
        → Descending store_pagesize ys
        → length ys ≡ suc i
        → trim_first (trim_end i ys (free + sizeof_int)) ≡ cut ys (free + sizeof_int))
    → Descending store_pagesize os
    → length os ≡ suc (suc i)
    → trim_first (trim_end (suc i) os free) ≡ cut os free
trim_end-cut_rest i os free ih d e = elim (snoc_cases os) [
  | inl n ↦ absurd (omega (arith, e, ap length n))
  | inr (ys, b, s) ↦
      let d' : Descending store_pagesize (ys ++ b ∷ []) = subst (Descending store_pagesize) s d in
      rw s (
        trim_end-cut_snoc i ys b free d' (ap length (sym s) ∙ e) (
          ih ys (Descending-snoc store_pagesize b ys d').0
            (omega (arith, e, ap length s, length-append ys (b ∷ [])))))
]

-- The source's loop from the back computes the same table, and gives the entries' space back.
trim_end-cut :
    (i : ℕ) (os : List ℕ) (free : ℕ)
    → Descending store_pagesize os
    → length os ≡ suc i
    → trim_first (trim_end i os free) ≡ cut os free
unfolding trim_end trim_first trim_offsets
trim_end-cut zero [] free d e = absurd (omega arith)
trim_end-cut zero (o ∷ []) free d e = ground arith
trim_end-cut zero (o ∷ o' ∷ os) free d e = absurd (omega arith)
trim_end-cut (suc i) os free d e =
    trim_end-cut_rest i os free (λ ys. trim_end-cut i ys (free + sizeof_int)) d e

trim_table-cut :
    (os : List ℕ) (free : ℕ) → Descending store_pagesize os → trim_table (os, free) ≡ cut os free
unfolding trim_end trim_first trim_offsets
trim_table-cut [] free d = ap (λ n. ([], n)) (omega arith)
trim_table-cut (o ∷ os) free d = trim_end-cut (length (o ∷ os) - 1) (o ∷ os) free d (omega arith)

drop_entry_last :
    (size free : ℕ) (ys : List ℕ) (b : ℕ)
    → Descending store_pagesize (ys ++ b ∷ [])
    → b ≡ last_offset store_pagesize ys
    → trim_table (take (length (ys ++ b ∷ []) - 1) (ys ++ b ∷ []), free + size + sizeof_int)
      ≡ cut (ys ++ b ∷ []) (free + size)
drop_entry_last size free ys b d e =
    rw (take-append ys b (length (ys ++ b ∷ []) - 1) (omega (arith, length-append ys (b ∷ [])))) (
      trim_table-cut ys (free + size + sizeof_int) (Descending-snoc store_pagesize b ys d).0
      ∙ sym (cut_same ys b (free + size) e))

-- Whether or not the deleted entry was the last one, the outcome is the same.
pub trim_table-drop_entry :
    (k size free : ℕ) (os : List ℕ)
    → Descending store_pagesize os
    → k < length os
    → ((ys : List ℕ) (b : ℕ)
        → os ≡ ys ++ b ∷ []
        → k ≡ length ys
        → b ≡ last_offset store_pagesize ys)
    → trim_table (drop_entry k size os free) ≡ cut os (free + size)
unfolding drop_entry
trim_table-drop_entry k size free os d h last = elim (Bool-cases (length os - 1 == k)) [
  | inl e ↦ rw e (elim (snoc_cases os) [
    | inl n ↦ absurd (omega (arith, ap length n))
    | inr (ys, b, s) ↦ rw s (
        drop_entry_last size free ys b (subst (Descending store_pagesize) s d)
          (last ys b s (omega (arith, ==→eq _ _ e, ap length s, length-append ys (b ∷ [])))))
  ])
  | inr n ↦ rw n (trim_table-cut os (free + size) d)
]
