-- ===== src/Cspf/Joins.antt =====
-- How removeDuplicateFirst and appendIfNotDuplicate of pkg/cspf/cspf.go put segment lists together.
use mathlib.Core.List.{append-nil}
use pce_testing.Base.{
  ◌≡◌, ◌⊎◌, inl, inr, refl, sym, ap, ◌∙◌, true, false, List, [], ◌∷◌, ◌++◌, some, Bool-cases,
}
use pce_testing.Table.Segment.{Segment, segments_equal}
use pce_testing.Cspf.Loose.{last, ends_with, remove_duplicate_first, append_if_not_duplicate}

last_one : (s : Segment) → last (s ∷ []) ≡ some s
unfolding last
last_one s = refl

last_next : (s t : Segment) (ts : List Segment) → last (s ∷ t ∷ ts) ≡ last (t ∷ ts)
unfolding last
last_next s t ts = refl

pub last-append : (xs : List Segment) (s : Segment) → last (xs ++ (s ∷ [])) ≡ some s
last-append [] s = last_one s
last-append (x ∷ []) s = last_next x s [] ∙ last_one s
last-append (x ∷ y ∷ ys) s = last_next x y (ys ++ (s ∷ [])) ∙ last-append (y ∷ ys) s

pub ends_at :
    (xs : List Segment) (s : Segment)
    → segments_equal s s ≡ true
    → ends_with (xs ++ (s ∷ [])) s ≡ true
unfolding ends_with
ends_at xs s e = rw (last-append xs s, ends_with) e

-- The list is empty, or ends with another segment.
abbrev pub EndsApart : List Segment → Segment → Type 0
EndsApart list seg =
    (list ≡ [])
    ⊎ ((front : List Segment) × (t : Segment) × (list ≡ front ++ (t ∷ []))
        × (segments_equal t seg ≡ false))

-- The list ends with an equal segment.
abbrev pub EndsWith : List Segment → Segment → Type 0
EndsWith list seg =
    (front : List Segment) × (t : Segment) × (list ≡ front ++ (t ∷ []))
    × (segments_equal t seg ≡ true)

-- How a list goes on with another one: if the first segment of that is the last one of the list, it
-- is not repeated, and nothing else is left out.
pub data Joins (before next joined : List Segment) : Type 0 where
  nothing : next ≡ [] → joined ≡ before → Joins before next joined
  shared :
      (s : Segment) (rest : List Segment)
      → next ≡ s ∷ rest
      → EndsWith before s
      → joined ≡ before ++ rest
      → Joins before next joined
  apart :
      (s : Segment) (rest : List Segment)
      → next ≡ s ∷ rest
      → EndsApart before s
      → joined ≡ before ++ next
      → Joins before next joined

at_last :
    (xs : List Segment)
    → (xs ≡ []) ⊎ ((front : List Segment) × (t : Segment) × (xs ≡ front ++ (t ∷ [])))
at_last [] = inl refl
at_last (x ∷ xs) = elim (at_last xs) [
  | inl e ↦ inr ([], x, ap (λ l. x ∷ l) e)
  | inr (front, t, e) ↦ inr (x ∷ front, t, ap (λ l. x ∷ l) e)
]

ends_nowhere : (s : Segment) → ends_with [] s ≡ false
unfolding ends_with last
ends_nowhere s = refl

ends_with-append :
    (front : List Segment) (t s : Segment) → ends_with (front ++ (t ∷ [])) s ≡ segments_equal t s
unfolding ends_with
ends_with-append front t s = rw (last-append front t, ends_with) refl

-- What the code's test finds.
ends_cases :
    (xs : List Segment) (s : Segment)
    → (EndsWith xs s × (ends_with xs s ≡ true)) ⊎ (EndsApart xs s × (ends_with xs s ≡ false))
ends_cases xs s = elim (at_last xs) [
  | inl e ↦ inr (inl e, ap (λ l. ends_with l s) e ∙ ends_nowhere s)
  | inr (front, t, e) ↦
      let test = ap (λ l. ends_with l s) e ∙ ends_with-append front t s in
      elim (Bool-cases (segments_equal t s)) [
        | inl same ↦ inl ((front, t, e, same), test ∙ same)
        | inr other ↦ inr (inr (front, t, e, other), test ∙ other)
      ]
]

pub removed-Joins :
    (full section : List Segment) → Joins full section (full ++ remove_duplicate_first full section)
unfolding remove_duplicate_first
removed-Joins full [] = Joins.nothing refl (append-nil full)
removed-Joins full (s ∷ section) = elim (ends_cases full s) [
  | inl (same, e) ↦ Joins.shared s section refl same (rw e refl)
  | inr (other, e) ↦ Joins.apart s section refl other (rw e refl)
]

pub appended-Joins :
    (list : List Segment) (seg : Segment) → Joins list (seg ∷ []) (append_if_not_duplicate list seg)
unfolding append_if_not_duplicate
appended-Joins list seg = elim (ends_cases list seg) [
  | inl (same, e) ↦ Joins.shared seg [] refl same (rw e (sym (append-nil list)))
  | inr (other, e) ↦ Joins.apart seg [] refl other (rw e refl)
]

pub Joins-EndsWith :
    (list joined : List Segment) (seg : Segment)
    → segments_equal seg seg ≡ true
    → Joins list (seg ∷ []) joined
    → EndsWith joined seg
Joins-EndsWith list joined seg same (Joins.nothing e j) = absurd (cc)
Joins-EndsWith list joined seg same (Joins.shared s rest e (front, t, w, eq) j) =
    let first : s ≡ seg = cc in
    let none_left : rest ≡ [] = cc in
    (
      front,
      t,
      j ∙ (ap (λ l. list ++ l) none_left ∙ (append-nil list ∙ w)),
      ap (λ x. segments_equal t x) (sym first) ∙ eq,
    )
Joins-EndsWith list joined seg same (Joins.apart s rest e w j) = (list, seg, j, same)
