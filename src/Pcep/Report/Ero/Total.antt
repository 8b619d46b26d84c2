-- ===== src/Pcep/Report/Ero/Total.antt =====
-- EroObject.DecodeFromBytes of pkg/packet/pcep/object.go always ends with an object or an error.
use pce_testing.Base.{
  ℕ, zero, suc, ◌≤◌, ◌≡◌, true, List, [], ◌∷◌, arith, Ends, >>=-Ends, ltb, ◌==◌, length, drop,
  length-drop, ltb→lt,
}
use pce_testing.Pcep.Report.Ero.Decode.{decode_subobject, decode_subobjects, decode_ero_object}
use pce_testing.Pcep.Report.Ero.Subobjects.{decode_subobject-Ends, if-Ends, returns-Ends}
use pce_testing.Pcep.Report.Ero.Progress.{decode_subobject-progress}

left_over : (n : ℕ) (bytes : List ℕ) → ltb n (length bytes) ≡ true → 1 ≤ length (drop n bytes)
left_over n bytes h = let lt = ltb→lt n (length bytes) h in omega (arith, length-drop n bytes, lt)

decode_subobjects-Ends :
    (fuel : ℕ) (bytes : List ℕ)
    → 1 ≤ length bytes
    → length bytes ≤ fuel
    → Ends (decode_subobjects fuel bytes)
unfolding decode_subobjects
decode_subobjects-Ends zero bytes one h = absurd (omega arith)
decode_subobjects-Ends (suc fuel) bytes one h =
    >>=-Ends (decode_subobject bytes) _ (decode_subobject-Ends bytes one) (λ next e.
      let progress = decode_subobject-progress bytes next.0 next.1 e in
      if-Ends (ltb next.1 (length bytes)) _ _
        (λ more. returns-Ends (decode_subobjects fuel (drop next.1 bytes)) _ (
          decode_subobjects-Ends fuel (drop next.1 bytes) (left_over next.1 bytes more)
            (omega (arith, length-drop next.1 bytes, progress))))
        (λ last. if-Ends (next.1 == length bytes) _ _ (λ all. tt) (λ over. tt)))

-- `EroObject.DecodeFromBytes` returns an object or an error on every byte sequence: no subobject
-- makes it fault, and its loop ends, since `Len()` of a decoded subobject is eight at least.
pub decode_ero_object-Ends : (typ : ℕ) (bytes : List ℕ) → Ends (decode_ero_object typ bytes)
unfolding decode_ero_object
decode_ero_object-Ends typ [] = tt
decode_ero_object-Ends typ (b ∷ bs) =
    returns-Ends (decode_subobjects (length (b ∷ bs)) (b ∷ bs)) _
      (decode_subobjects-Ends (length (b ∷ bs)) (b ∷ bs) (omega arith) (omega arith))
