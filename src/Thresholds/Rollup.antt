-- ===== src/Thresholds/Rollup.antt =====
-- analysis/thresholds.py: combine_directions over groups of directions.
use logistics_situation_plat.Thresholds.{
  Trend, improving, level, deteriorating, mixed, insufficient, combine_directions,
}
use logistics_situation_plat.Base.{
  ◌∙◌, sym, ap, contains, keep, List, [], ◌∷◌, ◌++◌, ◌≡◌, refl, arith, ◌==◌,
}

-- One direction joined to what the others gave.
abbrev join : Trend → Trend → Trend
join insufficient other = other
join level insufficient = level
join level other = other
join mixed other = mixed
join improving deteriorating = mixed
join improving mixed = mixed
join improving other = improving
join deteriorating improving = mixed
join deteriorating mixed = mixed
join deteriorating other = deteriorating

combine_directions-cons :
    (trend : Trend) (rest : List Trend)
    → combine_directions (trend ∷ rest) ≡ join trend (combine_directions rest)
unfolding combine_directions keep contains ◌==◌
combine_directions-cons improving rest = ground arith
combine_directions-cons level rest = ground arith
combine_directions-cons deteriorating rest = ground arith
combine_directions-cons mixed rest = ground arith
combine_directions-cons insufficient rest = refl

join_assoc : (a b c : Trend) → join (join a b) c ≡ join a (join b c)
join_assoc a b c = ground arith

join_comm : (a b : Trend) → join a b ≡ join b a
join_comm a b = ground arith

join_insufficient : (a : Trend) → join a insufficient ≡ a
join_insufficient a = ground arith

combine_directions-append :
    (left right : List Trend)
    → combine_directions (left ++ right) ≡ join (combine_directions left) (combine_directions right)
unfolding combine_directions keep
combine_directions-append [] right = refl
combine_directions-append (trend ∷ rest) right =
    combine_directions-cons trend (rest ++ right)
    ∙ ap (join trend) (combine_directions-append rest right)
    ∙ sym (join_assoc trend (combine_directions rest) (combine_directions right))
    ∙ ap (λ first. join first (combine_directions right)) (sym (combine_directions-cons trend rest))

combine_directions-pair : (a b : Trend) → combine_directions (a ∷ b ∷ []) ≡ join a b
unfolding combine_directions keep
combine_directions-pair a b =
    combine_directions-cons a (b ∷ [])
    ∙ ap (join a) (combine_directions-cons b [] ∙ join_insufficient b)

-- Rolling directions up in two groups and then the two results gives what rolling them all up at
-- once gives, and the order of the groups does not matter.
pub combine_directions-groups :
    (left right : List Trend)
    → (combine_directions (combine_directions left ∷ combine_directions right ∷ [])
        ≡ combine_directions (left ++ right))
      × (combine_directions (left ++ right) ≡ combine_directions (right ++ left))
combine_directions-groups left right =
    let joined = combine_directions-append left right in
    (
      combine_directions-pair (combine_directions left) (combine_directions right) ∙ sym joined,
      joined
          ∙ join_comm (combine_directions left) (combine_directions right)
          ∙ sym (combine_directions-append right left),
    )
