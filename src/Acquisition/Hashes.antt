-- ===== src/Acquisition/Hashes.antt =====
-- analysis/provenance.py: which texts _SHA256_PATTERN matches.
use Prim.Native.Char.{Char, code}
use Prim.Native.String.append
use Prim.Native.String.{String, [], ◌∷◌, ◌++◌}
use logistics_situation_plat.Acquisition.Digest.{is_hex_digit, is_hex_run, is_sha256}
use logistics_situation_plat.Base.{
  eqb_iff, sym, ◌∙◌, ap, and_true, arith, refl, ◌≤◌, ◌⊎◌, ◌↔◌, ◌≡◌, inl, inr, zero, suc, ℕ, true,
}

-- A digit from 0 to 9, or a letter from a to f.
abbrev pub IsHexDigit : Char → Type 0
IsHexDigit c = (48 ≤ code c) × (code c ≤ 57) ⊎ (97 ≤ code c) × (code c ≤ 102)

-- So many hexadecimal digits, and nothing else.
pub data HexDigits : ℕ → String → Type 0 where
  no_digit : HexDigits 0 ""
  next_digit :
      {c : Char} {count : ℕ} {rest : String}
      → IsHexDigit c
      → HexDigits count rest
      → HexDigits (suc count) (c ∷ rest)

-- So many hexadecimal digits, or those and one line feed.
abbrev pub IsHexRun : ℕ → String → Type 0
IsHexRun count text =
    (digits : String) × HexDigits count digits
    × ((text ≡ digits) ⊎ ((c : Char) × (code c ≡ 10) × (text ≡ digits ++ c ∷ [])))

is_hex_digit_iff : (c : Char) → (is_hex_digit c ≡ true) ↔ IsHexDigit c
is_hex_digit_iff c = ground arith

longer :
    (c : Char) (count : ℕ) (rest : String)
    → IsHexDigit c
    → IsHexRun count rest
    → IsHexRun (suc count) (c ∷ rest)
longer c count rest d (digits, run, inl e) =
    (c ∷ digits, HexDigits.next_digit d run, inl (ap (λ each. c ∷ each) e))
longer c count rest d (digits, run, inr (feed, is_feed, e)) = (
  c ∷ digits,
  HexDigits.next_digit d run,
  inr (feed, is_feed, ap (λ each. c ∷ each) e ∙ sym (append.cons c digits (feed ∷ []))),
)

is_hex_run-IsHexRun :
    (count : ℕ) (text : String) → is_hex_run count text ≡ true → IsHexRun count text
unfolding is_hex_run
is_hex_run-IsHexRun zero [] h = ("", HexDigits.no_digit, inl refl)
is_hex_run-IsHexRun zero (c ∷ []) h =
    ("", HexDigits.no_digit, inr (c, (eqb_iff (code c) 10).0 h, sym (append.nil (c ∷ []))))
is_hex_run-IsHexRun zero (c ∷ (d ∷ rest)) h = ground arith
is_hex_run-IsHexRun (suc count) [] h = ground arith
is_hex_run-IsHexRun (suc count) (c ∷ rest) h =
    let (d, run) = (and_true (is_hex_digit c) (is_hex_run count rest)).0 h in
    longer c count rest ((is_hex_digit_iff c).0 d) (is_hex_run-IsHexRun count rest run)

digits_match :
    (count : ℕ) (digits : String) → HexDigits count digits → is_hex_run count digits ≡ true
unfolding is_hex_run
digits_match zero [] HexDigits.no_digit = refl
digits_match zero (c ∷ rest) run = elim run [ ]
digits_match (suc count) [] run = elim run [ ]
digits_match (suc count) (c ∷ rest) (HexDigits.next_digit d run) =
    (and_true _ _).1 ((is_hex_digit_iff c).1 d, digits_match count rest run)

feed_matches :
    (count : ℕ) (digits : String) (feed : Char)
    → HexDigits count digits
    → code feed ≡ 10
    → is_hex_run count (digits ++ feed ∷ []) ≡ true
unfolding is_hex_run
feed_matches zero [] feed HexDigits.no_digit e =
    rw (append.nil (feed ∷ [])) ((eqb_iff (code feed) 10).1 e)
feed_matches zero (c ∷ rest) feed run e = elim run [ ]
feed_matches (suc count) [] feed run e = elim run [ ]
feed_matches (suc count) (c ∷ rest) feed (HexDigits.next_digit d run) e =
    rw (append.cons c rest (feed ∷ []))
      ((and_true _ _).1 ((is_hex_digit_iff c).1 d, feed_matches count rest feed run e))

-- A text passes for a hash when it is 64 hexadecimal digits, or those and a line feed.
pub is_sha256-IsHexRun_iff : (text : String) → (is_sha256 text ≡ true) ↔ IsHexRun 64 text
unfolding is_sha256
is_sha256-IsHexRun_iff text = (
  is_hex_run-IsHexRun 64 text,
  λ (digits, run, shape). elim shape [
    | inl e ↦ rw e (digits_match 64 digits run)
    | inr (feed, is_feed, e) ↦ rw e (feed_matches 64 digits feed run is_feed)
  ],
)
