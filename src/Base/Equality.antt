-- ===== src/Base/Equality.antt =====
-- Equality tests as an interface: one operator for texts, numbers, options and the tags of
-- the JSON vocabularies. The operator stays shut in proofs, which use `==_iff`.
use Prim.Native.Nat.{ℕ}
use Prim.Native.String.{String}
use text.Mathlib.Text.{◌==◌ as str_eq}
use text.Mathlib.TextEquality.{eq_iff}
use mathlib.Core.Path.{◌≡◌, refl, ap}
use mathlib.Core.Logic.{◌↔◌}
use mathlib.Core.Bool.{Bool, true, false}
use mathlib.Core.Option.{Option, none, some}
use logistics_situation_plat.Base.Tests.{eqb, eqb_iff}

pub record Eq (A : Type 0) : Type 0 where
  pub beq : A → A → Bool
  pub beq_iff : (a b : A) → (beq a b ≡ true) ↔ (a ≡ b)

infix 50 ◌==◌
unfoldable pub ◌==◌ : {A : Type 0} ⦃e : Eq A⦄ → A → A → Bool
◌==◌ ⦃e⦄ = e.beq

pub ==_iff : {A : Type 0} ⦃e : Eq A⦄ (a b : A) → ((a == b) ≡ true) ↔ (a ≡ b)
unfolding ◌==◌
==_iff ⦃e⦄ a b = e.beq_iff a b

instance abbrev pub nat_eq : Eq ℕ
nat_eq = record { beq = eqb; beq_iff = eqb_iff }

instance abbrev pub string_eq : Eq String
string_eq = record { beq = str_eq; beq_iff = eq_iff }

abbrev pub option_beq : {A : Type 0} ⦃e : Eq A⦄ → Option A → Option A → Bool
option_beq none none = true
option_beq none (some b) = false
option_beq (some a) none = false
option_beq ⦃e⦄ (some a) (some b) = e.beq a b

pub option_beq_iff : {A : Type 0} ⦃e : Eq A⦄ (a b : Option A) → (option_beq a b ≡ true) ↔ (a ≡ b)
option_beq_iff none none = ((λ h. refl), λ h. refl)
option_beq_iff none (some b) = ((λ h. cc), λ h. cc)
option_beq_iff (some a) none = ((λ h. cc), λ h. cc)
option_beq_iff ⦃e⦄ (some a) (some b) =
    ((λ h. ap some ((e.beq_iff a b).0 h)), λ h. (e.beq_iff a b).1 (cc))

instance abbrev pub option_eq : {A : Type 0} ⦃e : Eq A⦄ → Eq (Option A)
option_eq = record { beq = option_beq; beq_iff = option_beq_iff }

-- A tag type whose constructors are told apart by a number.
abbrev pub by_code : {A : Type 0} (code : A → ℕ) → ((a b : A) → code a ≡ code b → a ≡ b) → Eq A
by_code code inj = record {
  beq = λ a b. eqb (code a) (code b);
  beq_iff = λ a b. ((λ h. inj a b ((eqb_iff _ _).0 h)), λ h. (eqb_iff _ _).1 (ap code h));
}
