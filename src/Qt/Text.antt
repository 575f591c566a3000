-- ===== src/Qt/Text.antt =====
-- QString as the list of its code units, with the operations that the program calls.
use Prim.Native.Char.{code}
use Prim.Native.String.{String}
use vray_for_houdini.Base.{
  ℕ, ◌≡◌, ◌≢◌, refl, ap, ◌∙◌, ◌||◌, ◌++◌, ◌↔◌, Bool, true, false, ◌&&◌, List, [], ◌∷◌, arith, ltb,
  ◌==◌, if◌then◌else◌,
}

abbrev pub QString : Type 0
QString = List ℕ

-- A text literal. `String` has its own `[]` and `∷`.
abbrev pub lit : String → QString
lit String.[] = []
lit (String.◌∷◌ c s) = code c ∷ lit s

abbrev pub is_empty {ℓ} : {A : Type ℓ} → List A → Bool
is_empty [] = true
is_empty (c ∷ s) = false

unfoldable pub same_text : QString → QString → Bool
same_text [] [] = true
same_text [] (d ∷ t) = false
same_text (c ∷ s) [] = false
same_text (c ∷ s) (d ∷ t) = (c == d) && same_text s t

-- `operator<`: lexicographic in the code units.
unfoldable pub less_text : QString → QString → Bool
less_text s [] = false
less_text [] (d ∷ t) = true
less_text (c ∷ s) (d ∷ t) = let rest = less_text s t in if ltb c d then true else (c == d) && rest

pub same_text_iff : (s t : QString) → (same_text s t ≡ true) ↔ (s ≡ t)
unfolding same_text
same_text_iff [] [] = (λ _. refl, λ _. refl)
same_text_iff [] (d ∷ t) = ground arith
same_text_iff (c ∷ s) [] = ground arith
same_text_iff (c ∷ s) (d ∷ t) = ground (arith, same_text_iff s t)

-- `QStringList::join`
unfoldable pub join : ℕ → List QString → QString
join sep [] = []
join sep (s ∷ []) = s
join sep (s ∷ t ∷ rest) = s ++ sep ∷ join sep (t ∷ rest)

-- `QString::split`: the parts between the separators, empty ones too.
abbrev cons_head : ℕ → List QString → List QString
cons_head c [] = (c ∷ []) ∷ []
cons_head c (part ∷ parts) = (c ∷ part) ∷ parts

unfoldable pub split : ℕ → QString → List QString
split sep [] = [] ∷ []
split sep (c ∷ s) = let rest = split sep s in if c == sep then [] ∷ rest else cons_head c rest

-- `QStringList::contains`
unfoldable pub contains : List QString → QString → Bool
contains [] s = false
contains (t ∷ list) s = same_text t s || contains list s

-- A text with no separator.
abbrev pub Free : ℕ → QString → Type 0
Free sep [] = Unit {0}
Free sep (c ∷ s) = (c ≢ sep) × Free sep s

split-Free : (sep : ℕ) (s : QString) → Free sep s → split sep s ≡ s ∷ []
unfolding split
split-Free sep [] h = refl
split-Free sep (c ∷ s) h = ground (arith, split-Free sep s h.1)

split-append : (sep : ℕ) (s t : QString) → Free sep s → split sep (s ++ sep ∷ t) ≡ s ∷ split sep t
unfolding split
split-append sep [] t h = ground arith
split-append sep (c ∷ s) t h = ground (arith, split-append sep s t h.1)

abbrev pub AllFree : ℕ → List QString → Type 0
AllFree sep [] = Unit {0}
AllFree sep (s ∷ list) = Free sep s × AllFree sep list

-- A list of texts comes back from its joined form, unless it is empty.
pub split-join :
    (sep : ℕ) (s : QString) (list : List QString)
    → AllFree sep (s ∷ list)
    → split sep (join sep (s ∷ list)) ≡ s ∷ list
unfolding join
split-join sep s [] h = split-Free sep s h.0
split-join sep s (t ∷ list) h =
    split-append sep s (join sep (t ∷ list)) h.0 ∙ ap (◌∷◌ s) (split-join sep t list h.1)
