-- ===== src/Store/Page/Memory.antt =====
-- The bytes of a page as a function of the address, and the loops that read, copy and clear them.
use loxim_stats.Base.{
  ℕ, zero, suc, ◌+◌, ◌-◌, ◌≤◌, ◌<◌, ◌≡◌, refl, ap, ap₂, ◌⊎◌, inl, inr, List, [], ◌∷◌, arith, ◌==◌,
  if◌then◌else◌, length, Bool-cases,
}

abbrev pub Bytes : Type 0
Bytes = ℕ → ℕ

abbrev pub set_byte : Bytes → ℕ → ℕ → Bytes
set_byte m a b = λ x. if x == a then b else m x

-- `n` bytes from address `a` on.
unfoldable pub read : Bytes → ℕ → ℕ → List ℕ
read m a zero = []
read m a (suc n) = m a ∷ read m (a + 1) n

-- for (i = 0; i < size; i++) bytes[a + i] = obj[i]
unfoldable pub write_object : Bytes → ℕ → List ℕ → Bytes
write_object m a [] = m
write_object m a (b ∷ bs) = write_object (set_byte m a b) (a + 1) bs

-- for (n rounds from i on) bytes[i - size] = bytes[i]
unfoldable pub shift_down : Bytes → ℕ → ℕ → ℕ → Bytes
shift_down m size i zero = m
shift_down m size i (suc n) = shift_down (set_byte m (i - size) (m i)) size (i + 1) n

-- memset(a, 0, n)
unfoldable pub clear : Bytes → ℕ → ℕ → Bytes
clear m a zero = m
clear m a (suc n) = clear (set_byte m a 0) (a + 1) n

pub length-read : (m : Bytes) (a n : ℕ) → length (read m a n) ≡ n
unfolding read
length-read m a zero = refl
length-read m a (suc n) = omega (arith, length-read m (a + 1) n)

-- Two memories that agree on the range read alike there, also at other addresses.
pub read_agree :
    (m m' : Bytes) (a b n : ℕ)
    → ((k : ℕ) → k < n → m (a + k) ≡ m' (b + k))
    → read m a n ≡ read m' b n
unfolding read
read_agree m m' a b zero h = refl
read_agree m m' a b (suc n) h = ap₂ (λ x xs. x ∷ xs) first (read_agree m m' (a + 1) (b + 1) n rest)
  where
    first : m a ≡ m' b
    first = ground (arith, h 0)

    rest : (k : ℕ) → k < n → m (a + 1 + k) ≡ m' (b + 1 + k)
    rest k lt = ground (arith, h (k + 1))

pub write_object_below :
    (m : Bytes) (a : ℕ) (bs : List ℕ) (x : ℕ) → x < a → write_object m a bs x ≡ m x
unfolding write_object
write_object_below m a [] x h = refl
write_object_below m a (b ∷ bs) x h =
    ground (arith, write_object_below (set_byte m a b) (a + 1) bs x)

pub write_object_above :
    (m : Bytes) (a : ℕ) (bs : List ℕ) (x : ℕ) → a + length bs ≤ x → write_object m a bs x ≡ m x
unfolding write_object
write_object_above m a [] x h = refl
write_object_above m a (b ∷ bs) x h =
    ground (arith, write_object_above (set_byte m a b) (a + 1) bs x)

-- What was written is read back.
pub read-write_object :
    (m : Bytes) (a : ℕ) (bs : List ℕ) → read (write_object m a bs) a (length bs) ≡ bs
unfolding read write_object
read-write_object m a [] = refl
read-write_object m a (b ∷ bs) =
    ap₂ (λ x xs. x ∷ xs) first (read-write_object (set_byte m a b) (a + 1) bs)
  where
    first : write_object (set_byte m a b) (a + 1) bs a ≡ b
    first = ground (arith, write_object_below (set_byte m a b) (a + 1) bs a)

pub shift_down_outside :
    (m : Bytes) (s i n x : ℕ) → s ≤ i → (x + s < i) ⊎ (i + n ≤ x + s) → shift_down m s i n x ≡ m x
unfolding shift_down
shift_down_outside m s i zero x h out = refl
shift_down_outside m s i (suc n) x h out =
    ground (arith, shift_down_outside (set_byte m (i - s) (m i)) s (i + 1) n x)

-- The copying loop moves each byte of the range down, although it overwrites its own input.
pub shift_down_inside :
    (m : Bytes) (s i n x : ℕ) → s ≤ i → i ≤ x + s → x + s < i + n → shift_down m s i n x ≡ m (x + s)
unfolding shift_down
shift_down_inside m s i zero x h lo hi = absurd (omega arith)
shift_down_inside m s i (suc n) x h lo hi = elim (Bool-cases (x + s == i)) [
  | inl e ↦ ground (arith, shift_down_outside (set_byte m (i - s) (m i)) s (i + 1) n x)
  | inr e ↦ ground (arith, shift_down_inside (set_byte m (i - s) (m i)) s (i + 1) n x)
]

pub read_cons : (m : Bytes) (a n : ℕ) → 0 < n → read m a n ≡ m a ∷ read m (a + 1) (n - 1)
unfolding read
read_cons m a zero h = absurd (omega arith)
read_cons m a (suc n) h = ap (λ k. m a ∷ read m (a + 1) k) (omega arith)

pub read_nil : (m : Bytes) (a n : ℕ) → n ≡ 0 → read m a n ≡ []
unfolding read
read_nil m a n h = rw h

pub clear_below : (m : Bytes) (a n x : ℕ) → x < a → clear m a n x ≡ m x
unfolding clear
clear_below m a zero x h = refl
clear_below m a (suc n) x h = ground (arith, clear_below (set_byte m a 0) (a + 1) n x)

pub clear_above : (m : Bytes) (a n x : ℕ) → a + n ≤ x → clear m a n x ≡ m x
unfolding clear
clear_above m a zero x h = refl
clear_above m a (suc n) x h = ground (arith, clear_above (set_byte m a 0) (a + 1) n x)

pub clear_inside : (m : Bytes) (a n x : ℕ) → a ≤ x → x < a + n → clear m a n x ≡ 0
unfolding clear
clear_inside m a zero x lo hi = absurd (omega arith)
clear_inside m a (suc n) x lo hi = elim (Bool-cases (x == a)) [
  | inl e ↦ ground (arith, clear_below (set_byte m a 0) (a + 1) n x)
  | inr e ↦ clear_inside (set_byte m a 0) (a + 1) n x (ground arith) (omega arith)
]
