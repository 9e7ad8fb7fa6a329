-- ===== src/Examples/Rings.antt =====
-- The theorem on the ring of diagnostics, applied to lines that redaction cuts to three characters.
use agent_router.Prelude.{
  ℕ, Bool, true, [], ◌∷◌, ◌≡◌, refl, arith, all, take, leb, length, Text, inl,
}
use agent_router.Prelude.Laws.{length-take-le}
use agent_router.Platform.Diagnostics.{Ring, push_text}
use agent_router.Platform.Diagnostics.Laws.{Sound, push_text-Sound}

abbrev cut : Text → Text
cut t = take 3 t

abbrev is_cut : Text → Bool
is_cut t = leb (length t) 3

cut-is_cut : (t : Text) → is_cut (cut t) ≡ true
cut-is_cut t = ground (arith, length-take-le 3 t)

abbrev measure : Text → ℕ
measure t = length t

abbrev fresh : Ring
fresh = record { pending = []; lines = []; bytes = 0 }

fresh-Sound : Sound cut measure 8 is_cut fresh
unfolding all
fresh-Sound = record {
  counted = refl;
  bounded = inl (omega arith);
  half = omega arith;
  clean = refl;
}

abbrev written : Text
written = 97 ∷ 98 ∷ 99 ∷ 100 ∷ 10 ∷ 101 ∷ 10 ∷ 102 ∷ 103 ∷ 104 ∷ 105 ∷ 10 ∷ 106 ∷ []

push_text-Sound_example : Sound cut measure 8 is_cut (push_text cut measure 8 written fresh)
push_text-Sound_example = push_text-Sound cut measure 8 is_cut written fresh cut-is_cut fresh-Sound
