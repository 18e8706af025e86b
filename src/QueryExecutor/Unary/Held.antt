-- ===== src/QueryExecutor/Unary/Held.antt =====
-- The accumulators of min and max hold what no earlier element beats.
use loxim_stats.Base.{
  ◌≡◌, refl, ap, ◌∙◌, Bool, true, false, ◌||◌, Option, none, some, List, [], ◌∷◌, if◌then◌else◌,
  arith,
}
use loxim_stats.Base.Int.{ℤ}
use loxim_stats.Base.Compare.{is_lt, is_eq, IsCompare, Chains, flip, compare_ℤ, compare_ℤ-IsCompare}
use Prim.Native.Nat.{Ordering}
use Prim.Native.Nat.Ordering.{lt, eq, gt}
use loxim_stats.QueryExecutor.Doubles.{Doubles, DoubleLaws}
use loxim_stats.QueryExecutor.Result.{QueryResult, int, double}
use loxim_stats.QueryExecutor.Compare.Order.{value}
use loxim_stats.QueryExecutor.Unary.{
  Bests, Extreme, minimum, maximum, beats_int, beats_double, better_int, better_double, try_number,
  int_first, best_of,
}

abbrev pub tries : {D : Type 0} → Doubles D → Extreme → Bests D → List (QueryResult D) → Bests D
tries d e b [] = b
tries d e b (x ∷ xs) = tries d e (try_number d e b x) xs

-- A comparison in the direction of min or of max.
abbrev pub directed : Extreme → Ordering → Ordering
directed minimum o = o
directed maximum o = flip o

flip-Chains : (a b r : Ordering) → Chains a b r → Chains (flip a) (flip b) (flip r)
flip-Chains lt lt r h = ap flip h
flip-Chains lt eq r h = ap flip h
flip-Chains lt gt r h = tt
flip-Chains eq b r h = ap flip h
flip-Chains gt lt r h = tt
flip-Chains gt eq r h = ap flip h
flip-Chains gt gt r h = ap flip h

directed-IsCompare :
    {A : Type 0} (e : Extreme) (c : A → A → Ordering)
    → IsCompare c
    → IsCompare (λ x y. directed e (c x y))
directed-IsCompare minimum c o = o
directed-IsCompare maximum c o = record {
  swaps = λ x y. ap flip (o.swaps x y);
  chains = λ x y z. flip-Chains (c x y) (c y z) (c x z) (o.chains x y z);
}

module _ {A : Type 0} (c : A → A → Ordering) (o : IsCompare c) where
  -- The better one of two is not beaten by either, nor by what did not beat the second.
  self_held : (v : A) → is_lt (c v v) ≡ false
  self_held v = ground (arith, o.swaps v v)

  new_held : (v u : A) → is_lt (c v (if is_lt (c v u) then v else u)) ≡ false
  new_held v u = ground (arith, o.swaps v v)

  old_held :
      (v w u : A) → is_lt (c v u) ≡ false → is_lt (c v (if is_lt (c w u) then w else u)) ≡ false
  old_held v w u h = ground (arith, o.chains v w u)

module _ {D : Type 0} {d : Doubles D} (L : DoubleLaws d) (e : Extreme) where
  -- A number beats another by its value, and beats what is no number.
  abbrev pub beats : Option D → Option D → Bool
  beats none w = false
  beats (some v) none = true
  beats (some v) (some w) = is_lt (directed e (L.order v w))

  -- No element of the list beats the result.
  abbrev pub Unbeaten : QueryResult D → List (QueryResult D) → Type 0
  Unbeaten m [] = Unit {0}
  Unbeaten m (x ∷ xs) = (beats (value d x) (value d m) ≡ false) × Unbeaten m xs

  pub int_order : ℤ → ℤ → Ordering
  int_order v w = directed e (compare_ℤ v w)

  pub double_order : D → D → Ordering
  double_order v w = directed e (L.order v w)

  beats_int_order : (v w : ℤ) → beats_int d e v w ≡ is_lt (int_order v w)
  unfolding int_order
  beats_int_order v w = elim e [ minimum ↦ ground arith | maximum ↦ ground arith ]

  beats_double_order : (v w : D) → beats_double d e v w ≡ is_lt (double_order v w)
  unfolding double_order
  beats_double_order v w = ground (arith, L.less_lem v w, L.less_lem w v, L.ordered.swaps v w)

  int-IsCompare : IsCompare int_order
  unfolding int_order
  int-IsCompare = directed-IsCompare e compare_ℤ compare_ℤ-IsCompare

  double-IsCompare : IsCompare double_order
  unfolding double_order
  double-IsCompare = directed-IsCompare e L.order L.ordered

  -- An accumulator is set and not beaten.
  abbrev pub IntHeld : Option ℤ → ℤ → Type 0
  IntHeld none v = ⊥
  IntHeld (some best) v = is_lt (int_order v best) ≡ false

  abbrev pub DoubleHeld : Option D → D → Type 0
  DoubleHeld none v = ⊥
  DoubleHeld (some best) v = is_lt (double_order v best) ≡ false

  int_new : (v : ℤ) (best : Option ℤ) → IntHeld (some (better_int d e v best)) v
  int_new v none = self_held int_order int-IsCompare v
  int_new v (some w) = rw (beats_int_order v w) (new_held int_order int-IsCompare v w)

  int_step : (v w : ℤ) (best : Option ℤ) → IntHeld best v → IntHeld (some (better_int d e w best)) v
  int_step v w none h = absurd h
  int_step v w (some u) h = rw (beats_int_order w u) (old_held int_order int-IsCompare v w u h)

  double_new : (v : D) (best : Option D) → DoubleHeld (some (better_double d e v best)) v
  double_new v none = self_held double_order double-IsCompare v
  double_new v (some w) = rw (beats_double_order v w) (new_held double_order double-IsCompare v w)

  double_step :
      (v w : D) (best : Option D)
      → DoubleHeld best v
      → DoubleHeld (some (better_double d e w best)) v
  double_step v w none h = absurd h
  double_step v w (some u) h =
      rw (beats_double_order w u) (old_held double_order double-IsCompare v w u h)

  abbrev pub Held : Bests D → QueryResult D → Type 0
  Held b (int v) = IntHeld b.i_best v
  Held b (double v) = DoubleHeld b.d_best v
  Held b _ = Unit {0}

  try_new : (b : Bests D) (x : QueryResult D) → Held (try_number d e b x) x
  unfolding try_number
  try_new b (int v) = int_new v b.i_best
  try_new b (double v) = double_new v b.d_best
  try_new b x = tt

  try_step : (b : Bests D) (x y : QueryResult D) → Held b x → Held (try_number d e b y) x
  unfolding try_number
  try_step b (int v) (int w) h = int_step v w b.i_best h
  try_step b (double v) (double w) h = double_step v w b.d_best h
  try_step b (int v) y h = ground arith
  try_step b (double v) y h = ground arith
  try_step b x y h = tt

  abbrev pub AllHeld : Bests D → List (QueryResult D) → Type 0
  AllHeld b [] = Unit {0}
  AllHeld b (x ∷ xs) = Held b x × AllHeld b xs

  tries_step :
      (b : Bests D) (x : QueryResult D) (ys : List (QueryResult D))
      → Held b x
      → Held (tries d e b ys) x
  tries_step b x [] h = h
  tries_step b x (y ∷ ys) h = tries_step (try_number d e b y) x ys (try_step b x y h)

  pub tries_held : (b : Bests D) (xs : List (QueryResult D)) → AllHeld (tries d e b xs) xs
  tries_held b [] = tt
  tries_held b (x ∷ xs) =
      (tries_step (try_number d e b x) x xs (try_new b x), tries_held (try_number d e b x) xs)

  int_first_order :
      (v : ℤ) (w : D)
      → int_first d e v w
        ≡ (is_lt (double_order (d.of_int v) w) || is_eq (double_order (d.of_int v) w))
  unfolding double_order
  int_first_order v w = ground (
    arith,
    L.less_lem (d.of_int v) w,
    L.equals_lem (d.of_int v) w,
    L.less_lem w (d.of_int v),
    L.equals_lem w (d.of_int v),
    L.ordered.swaps w (d.of_int v),
  )

  of_int_order : (v w : ℤ) → double_order (d.of_int v) (d.of_int w) ≡ int_order v w
  unfolding double_order int_order
  of_int_order v w = ap (directed e) (L.of_int_lem v w)

  beats_order : (v w : D) → beats (some v) (some w) ≡ is_lt (double_order v w)
  unfolding double_order
  beats_order v w = refl

  -- The better one of the two accumulators.
  int_best :
      (v w : ℤ) (best : Option D)
      → is_lt (int_order v w) ≡ false
      → beats (some (d.of_int v)) (value d (best_of d e (some w) best)) ≡ false
  int_best v w none h = beats_order (d.of_int v) (d.of_int w) ∙ ap is_lt (of_int_order v w) ∙ h
  int_best v w (some u) h = ground (
    arith,
    int_first_order w u,
    of_int_order v w,
    beats_order (d.of_int v) (d.of_int w),
    beats_order (d.of_int v) u,
    double-IsCompare.chains (d.of_int v) u (d.of_int w),
    double-IsCompare.swaps u (d.of_int w),
  )

  double_best :
      (v u : D) (best : Option ℤ)
      → is_lt (double_order v u) ≡ false
      → beats (some v) (value d (best_of d e best (some u))) ≡ false
  double_best v u none h = beats_order v u ∙ h
  double_best v u (some w) h = ground (
    arith,
    int_first_order w u,
    beats_order v (d.of_int w),
    beats_order v u,
    double-IsCompare.chains v (d.of_int w) u,
  )

  Held-best :
      (i_best : Option ℤ) (d_best : Option D) (x : QueryResult D)
      → Held (record { i_best = i_best; d_best = d_best }) x
      → beats (value d x) (value d (best_of d e i_best d_best)) ≡ false
  Held-best none d_best (int v) h = absurd h
  Held-best (some w) d_best (int v) h = int_best v w d_best h
  Held-best i_best none (double v) h = absurd h
  Held-best i_best (some u) (double v) h = double_best v u i_best h
  Held-best i_best d_best x h = refl

  pub all-Unbeaten :
      (b : Bests D) (xs : List (QueryResult D))
      → AllHeld b xs
      → Unbeaten (best_of d e b.i_best b.d_best) xs
  all-Unbeaten b [] h = tt
  all-Unbeaten b (x ∷ xs) h = (Held-best b.i_best b.d_best x h.0, all-Unbeaten b xs h.1)
