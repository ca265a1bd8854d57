-- ===== src/Wallet/Service/Keys.antt =====
-- The keys of different operations are different.
use web_novel.Common.{◌≡◌, refl, Bool, false, [], ◌∷◌, ◌++◌, ◌==◌, ◌||◌, arith}
use web_novel.Common.Text.{Text, is_empty}
use web_novel.Wallet.Service.{namespaced, colon}

abbrev pub has_colon : Text → Bool
has_colon [] = false
has_colon (c ∷ t) = let rest = has_colon t in c == colon || rest

-- A text is split at its first colon in one way.
first_colon :
    (a b x y : Text)
    → has_colon a ≡ false
    → has_colon b ≡ false
    → a ++ (colon ∷ x) ≡ b ++ (colon ∷ y)
    → (a ≡ b) × (x ≡ y)
first_colon [] [] x y ha hb e = (refl, cc)
first_colon [] (c ∷ b) x y ha hb e = absurd (ground arith)
first_colon (c ∷ a) [] x y ha hb e = absurd (ground arith)
first_colon (c ∷ a) (d ∷ b) x y ha hb e =
    let (same, rest) = first_colon a b x y (ground arith) (ground arith) (cc) in
    (ground arith, rest)

-- A client's key that is not empty, put behind the name of its operation, determines both: where
-- neither name has a colon, equal keys come from one operation and one client key.
pub namespaced-injective :
    (op op' key key' : Text)
    → has_colon op ≡ false
    → has_colon op' ≡ false
    → is_empty key ≡ false
    → namespaced op key ≡ namespaced op' key'
    → (op ≡ op') × (key ≡ key')
unfolding namespaced
namespaced-injective op op' [] key' h h' k e = absurd (cc)
namespaced-injective [] op' (c ∷ key) [] h h' k e = absurd (cc)
namespaced-injective (d ∷ op) op' (c ∷ key) [] h h' k e = absurd (cc)
namespaced-injective op op' (c ∷ key) (c' ∷ key') h h' k e =
    first_colon op op' (c ∷ key) (c' ∷ key') h h' e
