-- ===== src/Detector/Integers.antt =====
-- Integers over the native numbers: `big.Int` of the amounts of a sale.
use ff_indexer.Prelude.{
  ℕ, zero, suc, ◌+◌, ◌-◌, ◌≡◌, Bool, true, false, ap, arith, leb, if◌then◌else◌,
}

-- `negsuc n` is -(n + 1)
pub data ℤ : Type 0 where
  pos : ℕ → ℤ
  negsuc : ℕ → ℤ

abbrev pub pos_part : ℤ → ℕ
pos_part (pos n) = n
pos_part (negsuc n) = 0

abbrev pub neg_part : ℤ → ℕ
neg_part (pos n) = 0
neg_part (negsuc n) = suc n

-- The difference of two numbers.
abbrev pub sub_ℕ : ℕ → ℕ → ℤ
sub_ℕ a b = if leb b a then pos (a - b) else negsuc (b - a - 1)

infixl 65 ◌+ℤ◌ ◌-ℤ◌
unfoldable pub ◌+ℤ◌ : ℤ → ℤ → ℤ
a +ℤ b = sub_ℕ (pos_part a + pos_part b) (neg_part a + neg_part b)

unfoldable pub ◌-ℤ◌ : ℤ → ℤ → ℤ
a -ℤ b = sub_ℕ (pos_part a + neg_part b) (neg_part a + pos_part b)

-- `BitLen() == 0`
abbrev pub is_zero : ℤ → Bool
is_zero (pos zero) = true
is_zero other = false

pub eq_of_parts : (a b : ℤ) → pos_part a + neg_part b ≡ pos_part b + neg_part a → a ≡ b
eq_of_parts a b h = ground arith

pub add_parts :
    (a b : ℤ)
    → pos_part (a +ℤ b) + neg_part a + neg_part b ≡ neg_part (a +ℤ b) + pos_part a + pos_part b
unfolding ◌+ℤ◌
add_parts a b = ground arith

pub sub_parts :
    (a b : ℤ)
    → pos_part (a -ℤ b) + neg_part a + pos_part b ≡ neg_part (a -ℤ b) + pos_part a + neg_part b
unfolding ◌-ℤ◌
sub_parts a b = ground arith

-- A number joins both sides of an equation of sums.
pub add_cons : (a w s t v : ℤ) → w +ℤ s ≡ t +ℤ v → (a +ℤ w) +ℤ s ≡ (a +ℤ t) +ℤ v
add_cons a w s t v h =
    let same : pos_part (w +ℤ s) ≡ pos_part (t +ℤ v) = ap pos_part h in
    let same' : neg_part (w +ℤ s) ≡ neg_part (t +ℤ v) = ap neg_part h in
    let h1 = add_parts w s in
    let h2 = add_parts t v in
    let h3 = add_parts a w in
    let h4 = add_parts a t in
    let h5 = add_parts (a +ℤ w) s in
    let h6 = add_parts (a +ℤ t) v in eq_of_parts ((a +ℤ w) +ℤ s) ((a +ℤ t) +ℤ v) (omega arith)

-- Of three numbers, the first and the last can change places.
pub add_swap : (v t s : ℤ) → (v +ℤ t) +ℤ s ≡ (s +ℤ t) +ℤ v
add_swap v t s =
    let h1 = add_parts v t in
    let h2 = add_parts s t in
    let h3 = add_parts (v +ℤ t) s in
    let h4 = add_parts (s +ℤ t) v in eq_of_parts ((v +ℤ t) +ℤ s) ((s +ℤ t) +ℤ v) (omega arith)

pub add_zero : (v : ℤ) → v +ℤ pos 0 ≡ v
add_zero v = let h = add_parts v (pos 0) in eq_of_parts (v +ℤ pos 0) v (omega arith)

pub zero_add : (v : ℤ) → pos 0 +ℤ v ≡ v
zero_add v = let h = add_parts (pos 0) v in eq_of_parts (pos 0 +ℤ v) v (omega arith)

-- A sum that has grown by a part's growth.
pub add_grown : (w s t a : ℤ) → w +ℤ s ≡ t +ℤ (s +ℤ a) → w ≡ t +ℤ a
add_grown w s t a h =
    let same : pos_part (w +ℤ s) ≡ pos_part (t +ℤ (s +ℤ a)) = ap pos_part h in
    let same' : neg_part (w +ℤ s) ≡ neg_part (t +ℤ (s +ℤ a)) = ap neg_part h in
    let h1 = add_parts w s in
    let h2 = add_parts s a in
    let h3 = add_parts t (s +ℤ a) in let h4 = add_parts t a in eq_of_parts w (t +ℤ a) (omega arith)

-- A sum that has lost what a part lost.
pub add_lost : (w s t a : ℤ) → w +ℤ s ≡ t +ℤ (s -ℤ a) → w ≡ t -ℤ a
add_lost w s t a h =
    let same : pos_part (w +ℤ s) ≡ pos_part (t +ℤ (s -ℤ a)) = ap pos_part h in
    let same' : neg_part (w +ℤ s) ≡ neg_part (t +ℤ (s -ℤ a)) = ap neg_part h in
    let h1 = add_parts w s in
    let h2 = sub_parts s a in
    let h3 = add_parts t (s -ℤ a) in let h4 = sub_parts t a in eq_of_parts w (t -ℤ a) (omega arith)

-- What is taken off can be added again.
pub sub_add : (p f : ℤ) → (p -ℤ f) +ℤ f ≡ p
sub_add p f =
    let h1 = sub_parts p f in
    let h2 = add_parts (p -ℤ f) f in eq_of_parts ((p -ℤ f) +ℤ f) p (omega arith)
