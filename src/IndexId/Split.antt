-- ===== src/IndexId/Split.antt =====
-- `strings.Split(s, "-")` of Go's library, and texts with no dash.
use Prim.Native.Char.{Char, code}
use Prim.Native.String.{String, ◌++◌}
use text.Mathlib.TextLemmas.{cons-append, nil-append}
use ff_indexer.Prelude.{
  List, [], ◌∷◌, Bool, false, ◌≡◌, refl, ap, ◌∙◌, if◌then◌else◌, eqb, Bool-cases, inl, inr, All,
}

abbrev pub is_dash : Char → Bool
is_dash c = eqb (code c) b'-'

-- The first part of a split grows at its front.
abbrev pub grow : Char → List String → List String
grow c [] = []
grow c (w ∷ ws) = (String.◌∷◌ c w) ∷ ws

unfoldable pub split : String → List String
split String.[] = "" ∷ []
split (String.◌∷◌ c s) = let rest = split s in if is_dash c then "" ∷ rest else grow c rest

abbrev pub HasNoDash : String → Type 0
HasNoDash String.[] = Unit
HasNoDash (String.◌∷◌ c s) = (is_dash c ≡ false) × HasNoDash s

pub split_lem : (a : String) → HasNoDash a → split a ≡ a ∷ []
unfolding split
split_lem String.[] h = refl
split_lem (String.◌∷◌ c s) h = rw (h.0, split_lem s h.1)

split-grow : (c : Char) (s : String) → is_dash c ≡ false → split (String.◌∷◌ c s) ≡ grow c (split s)
unfolding split
split-grow c s h = rw h

split-dash : (b : String) → split ("-" ++ b) ≡ "" ∷ split b
unfolding split
split-dash b = rw (cons-append "-" "" b, nil-append)

-- What stands before the first dash is the first part.
pub split-append : (a b : String) → HasNoDash a → split (a ++ ("-" ++ b)) ≡ a ∷ split b
split-append String.[] b h = rw nil-append (split-dash b)
split-append (String.◌∷◌ c s) b h =
    rw cons-append (split-grow c (s ++ ("-" ++ b)) h.0 ∙ ap (grow c) (split-append s b h.1))

All-grow :
    (c : Char) (ws : List String) → is_dash c ≡ false → All HasNoDash ws → All HasNoDash (grow c ws)
All-grow c [] h all = tt
All-grow c (w ∷ ws) h all = ((h, all.0), all.1)

-- No part of a split holds a dash.
pub split-HasNoDash : (s : String) → All HasNoDash (split s)
unfolding split
split-HasNoDash String.[] = (tt, tt)
split-HasNoDash (String.◌∷◌ c s) = elim (Bool-cases (is_dash c)) [
  | inl e ↦ rw e (tt, split-HasNoDash s)
  | inr e ↦ rw e (All-grow c (split s) e (split-HasNoDash s))
]
