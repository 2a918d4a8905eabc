-- ===== src/Provenance/Uses.antt =====
-- How the terms of a source order the uses of its records.
use logistics_situation_plat.Provenance.Publishable.{qualifies_for_current_publication-eligible_iff}
use logistics_situation_plat.Model.{
  licence_status_eq, dataset_eq, PublicationUse, retrieval_status_eq, Registry,
}
use logistics_situation_plat.Provenance.Decision.{
  publish_link_only, publish_bounded_claim, publish_derived_value, publish_raw_value, other_use,
  qualifies_for_current_publication, permits, is_known_use, IntendedUse,
}
use logistics_situation_plat.Provenance.Records.{Record}
use logistics_situation_plat.Base.{
  ℕ, ◌≤◌, ◌≡◌, true, Option, some, arith, string_eq, option_eq, nat_eq,
}

-- How much of the source a use gives out.
unfoldable pub use_rank : IntendedUse → ℕ
use_rank publish_link_only = 0
use_rank publish_bounded_claim = 1
use_rank publish_derived_value = 2
use_rank publish_raw_value = 3
use_rank other_use = 4

weaker_known :
    (intent weaker : IntendedUse)
    → use_rank weaker ≤ use_rank intent
    → is_known_use intent ≡ true
    → is_known_use weaker ≡ true
unfolding use_rank
weaker_known intent weaker le h = ground arith

weaker_permitted :
    (disposition : PublicationUse) (intent weaker : IntendedUse)
    → use_rank weaker ≤ use_rank intent
    → permits disposition intent ≡ true
    → permits disposition weaker ≡ true
unfolding use_rank
weaker_permitted disposition intent weaker le h = ground arith

-- Terms that let a stronger use through let the weaker ones through: a record that qualifies for a
-- raw value qualifies for a derived one, then for a bounded claim, then for a link.
pub qualifies_for_current_publication_weaker :
    (item : Record) (registry : Option Registry) (intent weaker : IntendedUse)
    → use_rank weaker ≤ use_rank intent
    → (qualifies_for_current_publication item registry (some intent)).eligible ≡ true
    → (qualifies_for_current_publication item registry (some weaker)).eligible ≡ true
qualifies_for_current_publication_weaker item registry intent weaker le h =
    let p = (qualifies_for_current_publication-eligible_iff item registry intent).0 h in
    (qualifies_for_current_publication-eligible_iff item registry weaker).1 (record {
      known = weaker_known intent weaker le p.known;
      current = p.current;
      origin = p.origin;
      real = p.real;
      source_id = p.source_id;
      identified = p.identified;
      not_blank = p.not_blank;
      not_reserved = p.not_reserved;
      sources = p.sources;
      supplied = p.supplied;
      source = p.source;
      registered = p.registered;
      collects = p.collects;
      compatible = p.compatible;
      disposition = p.disposition;
      disposed = p.disposed;
      permitted = weaker_permitted p.disposition intent weaker le p.permitted;
      licensed = p.licensed;
    })
