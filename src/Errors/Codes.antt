-- ===== src/Errors/Codes.antt =====
-- `split(".")` takes a code apart so that its parts, joined, are the code.
use Prim.Native.Char.{Char}
use Prim.Native.String.{String, ◌++◌}
use Prim.Native.String.append
use text.Mathlib.TextEquality.{Char-path}
use neo4j_python_driver.Base.{
  subst, ◌↔◌, ◌≡◌, refl, ap, ◌∙◌, sym, true, false, Bool-cases, inl, inr, arith, List, [], ◌∷◌, All,
}
use neo4j_python_driver.Errors.{is_dot, onto, split_dots}

-- No character is a dot.
abbrev pub Dotless : String → Type 0
Dotless String.[] = Unit
Dotless (String.◌∷◌ c s) = (is_dot c ≡ false) × Dotless s

abbrev pub join : List String → String
join [] = ""
join (p ∷ []) = p
join (p ∷ q ∷ ps) = p ++ "." ++ join (q ∷ ps)

-- A part that is followed by a dot is split off.
pub split_dots-append : (p s : String) → Dotless p → split_dots (p ++ "." ++ s) ≡ p ∷ split_dots s
unfolding split_dots
split_dots-append String.[] s h = rw (append.nil, append.cons, append.nil) refl
split_dots-append (String.◌∷◌ c p) s h = rw (append.cons, h.0, split_dots-append p s h.1) refl

split_dots-Dotless : (p : String) → Dotless p → split_dots p ≡ p ∷ []
unfolding split_dots
split_dots-Dotless String.[] h = refl
split_dots-Dotless (String.◌∷◌ c p) h = rw (h.0, split_dots-Dotless p h.1) refl

join-onto :
    (c : Char) (p : String) (ps : List String)
    → join (onto c (p ∷ ps)) ≡ String.◌∷◌ c (join (p ∷ ps))
join-onto c p [] = refl
join-onto c p (q ∷ ps) = append.cons c p _

-- The parts of a text: at least one, without dots, and joined they are the text.
abbrev pub PartsOf : String → List String → Type 0
PartsOf s [] = ⊥
PartsOf s (p ∷ ps) = (join (p ∷ ps) ≡ s) × All Dotless (p ∷ ps)

dot_char : (c : Char) → is_dot c ≡ true → c ≡ "."
dot_char c h = Char-path c "." (ground (arith, h))

PartsOf-dot :
    (c : Char) (s : String) (ps : List String)
    → is_dot c ≡ true
    → PartsOf s ps
    → PartsOf (String.◌∷◌ c s) ("" ∷ ps)
PartsOf-dot c s [] d h = absurd h
PartsOf-dot c s (p ∷ ps) d h = (
  rw (append.nil, append.cons, append.nil, h.0) (ap (λ x. String.◌∷◌ x s) (sym (dot_char c d))),
  (tt, h.1),
)

PartsOf-onto :
    (c : Char) (s : String) (ps : List String)
    → is_dot c ≡ false
    → PartsOf s ps
    → PartsOf (String.◌∷◌ c s) (onto c ps)
PartsOf-onto c s [] d h = absurd h
PartsOf-onto c s (p ∷ ps) d h = (join-onto c p ps ∙ ap (String.◌∷◌ c) h.0, ((d, h.1.0), h.1.1))

pub split_dots-PartsOf : (s : String) → PartsOf s (split_dots s)
unfolding split_dots
split_dots-PartsOf String.[] = (refl, (tt, tt))
split_dots-PartsOf (String.◌∷◌ c s) = elim (Bool-cases (is_dot c)) [
  | inl d ↦ rw d (PartsOf-dot c s (split_dots s) d (split_dots-PartsOf s))
  | inr d ↦ rw d (PartsOf-onto c s (split_dots s) d (split_dots-PartsOf s))
]

-- Four parts.
pub four_parts_iff :
    (s a b c d : String)
    → (split_dots s ≡ a ∷ b ∷ c ∷ d ∷ []) ↔ (
        (s ≡ a ++ "." ++ b ++ "." ++ c ++ "." ++ d) × Dotless a × Dotless b × Dotless c × Dotless d)
four_parts_iff s a b c d = (
  λ e.
      let (j, (ha, (hb, (hc, (hd, _))))) : PartsOf s (a ∷ b ∷ c ∷ d ∷ []) =
        subst (PartsOf s) e (split_dots-PartsOf s) in
      (sym j, ha, hb, hc, hd),
  λ h.
      let (e, ha, hb, hc, hd) = h in
      rw
        (
          e,
          split_dots-append a (b ++ "." ++ c ++ "." ++ d) ha,
          split_dots-append b (c ++ "." ++ d) hb,
          split_dots-append c d hc,
          split_dots-Dotless d hd,
        )
        refl,
)
