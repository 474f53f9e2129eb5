-- ===== src/Indexer/GapScan/Hash.antt =====
-- When two hashes count as equal.
use gin_demo.Prelude.{◌≡◌, refl, true, [], ◌∷◌, map, ◌↔◌, arith}
use gin_demo.Prelude.Text.{Text}
use gin_demo.Indexer.GapScan.{lower_hex, strings_equal_fold, equal_hash, trim_0x}

fold_sound : (s t : Text) → strings_equal_fold s t ≡ true → map lower_hex s ≡ map lower_hex t
unfolding strings_equal_fold
fold_sound [] [] h = refl
fold_sound [] (d ∷ t) h = cc
fold_sound (c ∷ s) [] h = cc
fold_sound (c ∷ s) (d ∷ t) h = ground (arith, fold_sound s t)

fold_complete : (s t : Text) → map lower_hex s ≡ map lower_hex t → strings_equal_fold s t ≡ true
unfolding strings_equal_fold
fold_complete [] [] h = refl
fold_complete [] (d ∷ t) h = cc
fold_complete (c ∷ s) [] h = cc
fold_complete (c ∷ s) (d ∷ t) h =
    let same : lower_hex c ≡ lower_hex d = cc in
    let rest : map lower_hex s ≡ map lower_hex t = cc in ground (arith, fold_complete s t)

-- Two hashes count as equal exactly when their texts without the prefix 0x are the same text once
-- the letters A to F are put in lower case.
pub equal_hash-folded :
    (a b : Text) → (equal_hash a b ≡ true) ↔ (map lower_hex (trim_0x a) ≡ map lower_hex (trim_0x b))
unfolding equal_hash
equal_hash-folded a b = (fold_sound (trim_0x a) (trim_0x b), fold_complete (trim_0x a) (trim_0x b))
