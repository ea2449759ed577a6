-- ===== src/Go/Strings.antt =====
-- Package strings, for separators of one byte.
use aperture.Prelude.{
  ◌||◌, ℕ, ◌≡◌, refl, ap, ◌∙◌, ◌≢◌, inl, inr, Bool, true, false, ◌&&◌, List, [], ◌∷◌, ◌++◌, arith,
  ◌==◌, leb, ◌+◌, if◌then◌else◌, Bytes, Lacks, All, Bool-cases,
}

-- Puts a byte in front of the first part.
abbrev pub grow : ℕ → List Bytes → List Bytes
grow c [] = (c ∷ []) ∷ []
grow c (p ∷ ps) = (c ∷ p) ∷ ps

-- strings.Split
unfoldable pub split : ℕ → Bytes → List Bytes
split sep [] = [] ∷ []
split sep (c ∷ s) = let rest = split sep s in if c == sep then [] ∷ rest else grow c rest

-- strings.SplitN with n = 2: the text up to the first separator, and all that follows.
unfoldable pub split_n2 : ℕ → Bytes → List Bytes
split_n2 sep [] = [] ∷ []
split_n2 sep (c ∷ s) = let rest = split_n2 sep s in if c == sep then [] ∷ s ∷ [] else grow c rest

-- The parts with separators between them, as strings.Join and the printing loops build it.
unfoldable pub join : ℕ → List Bytes → Bytes
join sep [] = []
join sep (p ∷ []) = p
join sep (p ∷ q ∷ ps) = p ++ sep ∷ join sep (q ∷ ps)

-- strings.HasPrefix
unfoldable pub has_prefix : Bytes → Bytes → Bool
has_prefix s [] = true
has_prefix [] (p ∷ ps) = false
has_prefix (c ∷ s) (p ∷ ps) = c == p && has_prefix s ps

-- strings.ToLower, on ASCII text.
-- strings.Contains
unfoldable pub contains_text : Bytes → Bytes → Bool
unfolding has_prefix
contains_text [] sub = has_prefix [] sub
contains_text (c ∷ s) sub = has_prefix (c ∷ s) sub || contains_text s sub

unfoldable pub to_lower : Bytes → Bytes
to_lower [] = []
to_lower (c ∷ s) = (if leb 65 c && leb c 90 then c + 32 else c) ∷ to_lower s

split-ne-nil : (sep : ℕ) (s : Bytes) → split sep s ≢ []
unfolding split
split-ne-nil sep [] = cc
split-ne-nil sep (c ∷ s) = ground (arith, split-ne-nil sep s)

join-grow : (sep c : ℕ) (ps : List Bytes) → ps ≢ [] → join sep (grow c ps) ≡ c ∷ join sep ps
unfolding join
join-grow sep c [] h = absurd (h refl)
join-grow sep c (p ∷ []) h = refl
join-grow sep c (p ∷ q ∷ ps) h = refl

join-nil : (sep : ℕ) (ps : List Bytes) → ps ≢ [] → join sep ([] ∷ ps) ≡ sep ∷ join sep ps
unfolding join
join-nil sep [] h = absurd (h refl)
join-nil sep (p ∷ ps) h = refl

-- Joining the parts of a text gives the text back.
pub join-split : (sep : ℕ) (s : Bytes) → join sep (split sep s) ≡ s
unfolding split
join-split sep [] = unfold join in refl
join-split sep (c ∷ s) = ground (
  arith,
  split-ne-nil sep s,
  join-grow sep c (split sep s),
  join-nil sep (split sep s),
  join-split sep s,
)

-- A text without the separator is one part.
pub split-Lacks : (sep : ℕ) (s : Bytes) → Lacks sep s → split sep s ≡ s ∷ []
unfolding split
split-Lacks sep [] h = refl
split-Lacks sep (c ∷ s) h = ground (arith, split-Lacks sep s)

pub split-append :
    (sep : ℕ) (p s : Bytes) → Lacks sep p → split sep (p ++ sep ∷ s) ≡ p ∷ split sep s
unfolding split
split-append sep [] s h = ground arith
split-append sep (c ∷ p) s h = ground (arith, split-append sep p s)

-- Splitting what was joined gives the parts back, if none holds the separator.
pub split-join :
    (sep : ℕ) (p : Bytes) (ps : List Bytes)
    → Lacks sep p
    → All (Lacks sep) ps
    → split sep (join sep (p ∷ ps)) ≡ p ∷ ps
unfolding join
split-join sep p [] h hs = split-Lacks sep p h
split-join sep p (q ∷ ps) h hs =
    split-append sep p (join sep (q ∷ ps)) h ∙ ap (◌∷◌ p) (split-join sep q ps hs.0 hs.1)

-- The parts hold no separator.
pub split-All-Lacks : (sep : ℕ) (s : Bytes) → All (Lacks sep) (split sep s)
unfolding split
split-All-Lacks sep [] = (tt, tt)
split-All-Lacks sep (c ∷ s) = elim (Bool-cases (c == sep)) [
  | inl e ↦ rw e (tt, split-All-Lacks sep s)
  | inr e ↦ rw e (grow-All (split sep s) (ground arith) (split-All-Lacks sep s))
]
  where
    grow-All : (ps : List Bytes) → c ≢ sep → All (Lacks sep) ps → All (Lacks sep) (grow c ps)
    grow-All [] h k = ((h, tt), tt)
    grow-All (p ∷ ps) h k = ((h, k.0), k.1)

pub split_n2-append :
    (sep : ℕ) (p s : Bytes) → Lacks sep p → split_n2 sep (p ++ sep ∷ s) ≡ p ∷ s ∷ []
unfolding split_n2
split_n2-append sep [] s h = ground arith
split_n2-append sep (c ∷ p) s h = ground (arith, split_n2-append sep p s)

-- What SplitN returns: two parts around the first separator, or the whole text.
pub data Cut (sep : ℕ) (s : Bytes) (parts : List Bytes) : Type 0 where
  found : (p q : Bytes) → Lacks sep p → s ≡ p ++ sep ∷ q → parts ≡ p ∷ q ∷ [] → Cut sep s parts
  missing : Lacks sep s → parts ≡ s ∷ [] → Cut sep s parts

Cut-grow :
    (sep c : ℕ) {s : Bytes} {parts : List Bytes}
    → c ≢ sep
    → Cut sep s parts
    → Cut sep (c ∷ s) (grow c parts)
Cut-grow sep c h (found p q l e k) = found (c ∷ p) q (h, l) (ap (◌∷◌ c) e) (ap (grow c) k)
Cut-grow sep c h (missing l k) = missing (h, l) (ap (grow c) k)

pub split_n2-Cut : (sep : ℕ) (s : Bytes) → Cut sep s (split_n2 sep s)
unfolding split_n2
split_n2-Cut sep [] = missing tt refl
split_n2-Cut sep (c ∷ s) = elim (Bool-cases (c == sep)) [
  | inl e ↦ rw e (found [] s tt (ground arith) refl)
  | inr e ↦ rw e (Cut-grow sep c (ground arith) (split_n2-Cut sep s))
]
