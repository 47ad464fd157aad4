-- ===== src/Common/NumStats/History.antt =====
-- `NumStats` against the list of all values pushed since the last reset, newest first.
use substrate_telemetry.Prelude.{
  ℕ, zero, suc, ◌+◌, ◌-◌, ◌/◌, ◌%◌, ◌<◌, ◌≡◌, refl, sym, ap, ◌∙◌, ◌≢◌, List, [], ◌∷◌, map, arith,
  suc-==-zero, length, length-map, length-set, length-replicate, set, get_or, min, take, replicate,
  All, sum, Returns, u64_mod, add64, sub64,
}
use native.Mathlib.Nat.{mod-lt, mod-eq_of_lt}
use substrate_telemetry.Common.NumStats.{NumStats, new, push, average, reset}

-- Where the value pushed `j` pushes ago stands, in a ring of `size` slots.
abbrev pub place : ℕ → ℕ → ℕ → ℕ
place size index j = (index + (size - 1 - j)) % size

-- The window: the sum of the last `size` values.
abbrev pub window : ℕ → List ℕ → ℕ
window size history = sum (take size history)

pub record Tracks (size : ℕ) (s : NumStats) (history : List ℕ) : Type 0 where
  pub width : length s.stack ≡ size
  pub pushes : s.index ≡ length history
  pub slots : (j : ℕ) → j < size → get_or s.stack (place size s.index j) 0 ≡ get_or history j 0
  pub words : All (λ x. x < u64_mod) history
  pub total : s.sum ≡ window size history % u64_mod

mod_shift_ne : (n a d : ℕ) → 0 < d → d < n → (a + d) % n ≢ a % n
mod_shift_ne n a d h k = grind arith

get_or-set_self : (xs : List ℕ) (i v : ℕ) → i < length xs → get_or (set xs i v) i 0 ≡ v
get_or-set_self [] i v h = absurd (omega arith)
get_or-set_self (x ∷ xs) zero v h = refl
get_or-set_self (x ∷ xs) (suc i) v h = get_or-set_self xs i v (omega arith)

get_or-set_ne : (xs : List ℕ) (i j v : ℕ) → i ≢ j → get_or (set xs i v) j 0 ≡ get_or xs j 0
get_or-set_ne [] i j v h = refl
get_or-set_ne (x ∷ xs) zero zero v h = absurd (h refl)
get_or-set_ne (x ∷ xs) zero (suc j) v h = refl
get_or-set_ne (x ∷ xs) (suc i) zero v h = refl
get_or-set_ne (x ∷ xs) (suc i) (suc j) v h = get_or-set_ne xs i j v (λ e. h (ap suc e))

-- A push moves the window on by one.
window-push :
    (size : ℕ) (v : ℕ) (history : List ℕ)
    → window (suc size) (v ∷ history) + get_or history size 0 ≡ window (suc size) history + v
window-push zero v [] = omega arith
window-push zero v (x ∷ history) = omega arith
window-push (suc size) v [] = omega arith
window-push (suc size) v (x ∷ history) = omega (arith, window-push size x history)

place_self : (n i : ℕ) → place (suc n) (i + 1) 0 ≡ i % suc n
place_self n i = grind arith

place_next : (n i j : ℕ) → j < n → place (suc n) (i + 1) (suc j) ≡ place (suc n) i j
place_next n i j h = ap (λ x. x % suc n) (omega arith)

place_ne : (n i j : ℕ) → j < n → i % suc n ≢ place (suc n) i j
place_ne n i j h e = mod_shift_ne (suc n) i (suc n - 1 - j) (omega arith) (omega arith) (sym e)

place-last : (n i : ℕ) → place (suc n) i n ≡ i % suc n
place-last n i = ap (λ x. x % suc n) (omega arith)

push-slots :
    (n : ℕ) (s : NumStats) (history : List ℕ) (v j : ℕ)
    → Tracks (suc n) s history
    → j < suc n
    → get_or (set s.stack (s.index % suc n) v) (place (suc n) (s.index + 1) j) 0
      ≡ get_or (v ∷ history) j 0
push-slots n s history v zero t h =
    rw (place_self n s.index)
      (get_or-set_self s.stack (s.index % suc n) v (rw t.width (mod-lt s.index (omega arith))))
push-slots n s history v (suc j) t h = rw (place_next n s.index j (omega arith)) (
    get_or-set_ne s.stack (s.index % suc n) (place (suc n) s.index j) v
      (place_ne n s.index j (omega arith))
    ∙ t.slots j (omega arith))

-- The value that leaves the window is a word.
get_or-word :
    (history : List ℕ) (i : ℕ) → All (λ x. x < u64_mod) history → get_or history i 0 < u64_mod
get_or-word [] i h = omega arith
get_or-word (x ∷ history) zero h = h.0
get_or-word (x ∷ history) (suc i) h = get_or-word history i h.1

push-total :
    (n : ℕ) (s : NumStats) (history : List ℕ) (v : ℕ)
    → Tracks (suc n) s history
    → v < u64_mod
    → sub64 (add64 s.sum v) (get_or s.stack (s.index % suc n) 0)
      ≡ window (suc n) (v ∷ history) % u64_mod
unfolding sub64 add64
push-total n s history v t w =
    let oldest : get_or s.stack (s.index % suc n) 0 ≡ get_or history n 0 =
      rw (← place-last n s.index) (t.slots n (omega arith)) in
    rw oldest (ground (arith, t.total, window-push n v history, get_or-word history n t.words))

get_or-replicate : (n i : ℕ) → get_or {A = ℕ} (replicate n 0) i 0 ≡ 0
get_or-replicate zero i = refl
get_or-replicate (suc n) zero = refl
get_or-replicate (suc n) (suc i) = get_or-replicate n i

get_or-map_zero : (xs : List ℕ) (i : ℕ) → get_or {A = ℕ} (map (λ _. 0) xs) i 0 ≡ 0
get_or-map_zero [] i = refl
get_or-map_zero (x ∷ xs) zero = refl
get_or-map_zero (x ∷ xs) (suc i) = get_or-map_zero xs i

length-map_zero : (xs : List ℕ) → length {A = ℕ} (map (λ _. 0) xs) ≡ length xs
length-map_zero [] = refl
length-map_zero (x ∷ xs) = ap suc (length-map_zero xs)

-- A fresh `NumStats` has the empty history.
pub new-Tracks : (n : ℕ) → Tracks (suc n) (new (suc n)) []
unfolding new
new-Tracks n = record {
  width = length-replicate (suc n) 0;
  pushes = refl;
  slots = λ j h. get_or-replicate (suc n) (place (suc n) 0 j);
  words = tt;
  total = refl;
}

-- A push does not panic if there is a slot, and adds the value to the history: the ring holds the
-- last values pushed and the kept sum is the sum of the window, without wrap-around in between.
pub push-Tracks :
    (n : ℕ) (s : NumStats) (history : List ℕ) (v : ℕ)
    → Tracks (suc n) s history
    → v < u64_mod
    → Returns (push s v) (λ s'. Tracks (suc n) s' (v ∷ history))
unfolding push
push-Tracks n s history v t w =
    rw (t.width, suc-==-zero n)
      (record {
        width = length-set s.stack (s.index % suc n) v ∙ t.width;
        pushes = omega (arith, t.pushes);
        slots = λ j h. push-slots n s history v j t h;
        words = (w, t.words);
        total = push-total n s history v t w;
      })

-- The average is that of the last values pushed, at most as many as there are slots, as long as
-- their sum is a `u64`.
pub average-Tracks :
    (n : ℕ) (s : NumStats) (history : List ℕ)
    → Tracks (suc n) s history
    → window (suc n) history < u64_mod
    → history ≢ []
    → average s ≡ window (suc n) history / min (length history) (suc n)
unfolding average
average-Tracks n s [] t w some_pushed = absurd (some_pushed refl)
average-Tracks n s (x ∷ history) t w some_pushed =
    rw (t.width, t.pushes, t.total)
      (ground (arith, mod-eq_of_lt {n = window (suc n) (x ∷ history)} w))

-- A reset forgets the history.
pub reset-Tracks :
    (n : ℕ) (s : NumStats) (history : List ℕ)
    → Tracks (suc n) s history
    → Tracks (suc n) (reset s) []
unfolding reset
reset-Tracks n s history t = record {
  width = length-map_zero s.stack ∙ t.width;
  pushes = refl;
  slots = λ j h. get_or-map_zero s.stack (place (suc n) 0 j);
  words = tt;
  total = refl;
}

-- The number of slots never changes.
pub push_width :
    (n : ℕ) (s : NumStats) (v : ℕ)
    → length s.stack ≡ suc n
    → Returns (push s v) (λ s'. length s'.stack ≡ suc n)
unfolding push
push_width n s v h = rw (h, suc-==-zero n) (length-set s.stack (s.index % suc n) v ∙ h)

pub reset_width : (s : NumStats) → length (reset s).stack ≡ length s.stack
unfolding reset
reset_width s = length-map (λ _. 0) s.stack
