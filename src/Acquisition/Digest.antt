-- ===== src/Acquisition/Digest.antt =====
-- analysis/provenance.py: _SHA256_PATTERN.
use Prim.Native.Char.{Char, code}
use Prim.Native.String.{String, [], ◌∷◌}
use logistics_situation_plat.Base.{ℕ, zero, suc, Bool, true, false, leb, eqb, ◌&&◌, ◌||◌}

-- `[a-f0-9]`
abbrev pub is_hex_digit : Char → Bool
is_hex_digit c = leb 48 (code c) && leb (code c) 57 || leb 97 (code c) && leb (code c) 102

-- `[a-f0-9]{count}$`, whose `$` also matches before a line feed that ends the text.
unfoldable pub is_hex_run : ℕ → String → Bool
is_hex_run zero [] = true
is_hex_run zero (c ∷ []) = eqb (code c) 10
is_hex_run zero (c ∷ (d ∷ rest)) = false
is_hex_run (suc count) [] = false
is_hex_run (suc count) (c ∷ rest) = is_hex_digit c && is_hex_run count rest

unfoldable pub is_sha256 : String → Bool
is_sha256 text = is_hex_run 64 text
