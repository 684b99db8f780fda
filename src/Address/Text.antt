-- ===== src/Address/Text.antt =====
-- The methods of Python's `str` that the addresses use, on codes of characters.
use tipy.Common.{
  ℕ, ◌+◌, ◌-◌, ◌*◌, ◌≡◌, refl, ap, ◌∙◌, Bool, true, false, ◌&&◌, ◌||◌, List, [], ◌∷◌, ◌++◌,
  if◌then◌else◌, leb, ◌==◌, arith,
}

abbrev pub Text : Type 0
Text = List ℕ

-- c in text
unfoldable pub contains : ℕ → Text → Bool
contains c [] = false
contains c (x ∷ xs) = (x == c) || contains c xs

abbrev cons_first : ℕ → List Text → List Text
cons_first x [] = (x ∷ []) ∷ []
cons_first x (field ∷ fields) = (x ∷ field) ∷ fields

-- text.split(c)
unfoldable pub split : ℕ → Text → List Text
split c [] = [] ∷ []
split c (x ∷ xs) = let rest = split c xs in if x == c then ([] ∷ rest) else cons_first x rest

-- text.replace(c, d) for two characters
unfoldable pub replace : ℕ → ℕ → Text → Text
replace c d [] = []
replace c d (x ∷ xs) = (if x == c then d else x) ∷ replace c d xs

-- text.replace(c, "")
unfoldable pub erase : ℕ → Text → Text
erase c [] = []
erase c (x ∷ xs) = let rest = erase c xs in if x == c then rest else x ∷ rest

-- c.join(texts)
unfoldable pub join : ℕ → List Text → Text
join c [] = []
join c (xs ∷ []) = xs
join c (xs ∷ ys ∷ yss) = xs ++ (c ∷ join c (ys ∷ yss))

unfoldable pub all_digits : Text → Bool
all_digits [] = true
all_digits (x ∷ xs) = (leb b'0' x && leb x b'9') && all_digits xs

-- text.isascii() and text.isdigit()
unfoldable pub is_digits : Text → Bool
unfolding all_digits
is_digits [] = false
is_digits (x ∷ xs) = all_digits (x ∷ xs)

-- int(text, 10), for digits
unfoldable pub decimal_from : ℕ → Text → ℕ
decimal_from acc [] = acc
decimal_from acc (x ∷ xs) = decimal_from (acc * 10 + (x - b'0')) xs

-- A field is split off at the first separator behind it.
pub split-join :
    (c : ℕ) (xs ys : Text) → contains c xs ≡ false → split c (xs ++ (c ∷ ys)) ≡ xs ∷ split c ys
unfolding split contains
split-join c [] ys h = ap (λ b. if b then ([] ∷ split c ys) else cons_first c (split c ys)) (same c)
  where
    same : (c : ℕ) → (c == c) ≡ true
    same c = ground arith
split-join c (x ∷ xs) ys h =
    ap (λ r. if x == c then ([] ∷ r) else cons_first x r)
      (split-join c xs ys (tail_of (x == c) _ h))
    ∙ ap (λ b. if b then ([] ∷ xs ∷ split c ys) else ((x ∷ xs) ∷ split c ys)) (head_of (x == c) _ h)
  where
    tail_of : (a b : Bool) → (a || b) ≡ false → b ≡ false
    tail_of true b e = absurd (cc e)
    tail_of false b e = e

    head_of : (a b : Bool) → (a || b) ≡ false → a ≡ false
    head_of true b e = absurd (cc e)
    head_of false b e = refl

pub split_field : (c : ℕ) (xs : Text) → contains c xs ≡ false → split c xs ≡ xs ∷ []
unfolding split contains
split_field c [] h = refl
split_field c (x ∷ xs) h =
    ap (λ r. if x == c then ([] ∷ r) else cons_first x r) (split_field c xs (tail_of (x == c) _ h))
    ∙ ap (λ b. if b then ([] ∷ xs ∷ []) else ((x ∷ xs) ∷ [])) (head_of (x == c) _ h)
  where
    tail_of : (a b : Bool) → (a || b) ≡ false → b ≡ false
    tail_of true b e = absurd (cc e)
    tail_of false b e = e

    head_of : (a b : Bool) → (a || b) ≡ false → a ≡ false
    head_of true b e = absurd (cc e)
    head_of false b e = refl
