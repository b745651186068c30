-- ===== src/Prelude/Texts.antt =====
-- Texts, as the lists of their character codes.
use gps_device_virtual_farm.Prelude.{
  ℕ, ◌≡◌, refl, Bool, true, false, ◌&&◌, ◌||◌, List, [], ◌∷◌, arith, leb, ◌==◌, length,
}

-- `===` on texts
unfoldable pub same_text : List ℕ → List ℕ → Bool
same_text [] [] = true
same_text (c ∷ cs) (d ∷ ds) = c == d && same_text cs ds
same_text _ _ = false

pub same_text_refl : (cs : List ℕ) → same_text cs cs ≡ true
unfolding same_text
same_text_refl [] = refl
same_text_refl (c ∷ cs) = ground (arith, same_text_refl cs)

-- `set.has(text)`
unfoldable pub has_text : List (List ℕ) → List ℕ → Bool
has_text [] text = false
has_text (t ∷ ts) text = same_text t text || has_text ts text

-- Each code is a digit, `\d`.
unfoldable pub are_digits : List ℕ → Bool
are_digits [] = true
are_digits (c ∷ cs) = leb 48 c && (leb c 57 && are_digits cs)

-- Each code is in `[a-f0-9]`.
unfoldable pub are_hex : List ℕ → Bool
are_hex [] = true
are_hex (c ∷ cs) = ((leb 48 c && leb c 57) || (leb 97 c && leb c 102)) && are_hex cs

-- `/^[a-f0-9]{64}$/`
unfoldable pub is_digest : List ℕ → Bool
is_digest text = length text == 64 && are_hex text
