-- ===== src/Provenance/Publishable.antt =====
-- What a record that qualifies for current publication has shown.
use logistics_situation_plat.Model.{
  manual_intake_eq, access_method_eq, origin_eq, allowed, AccessMethod, licence_status_eq,
  dataset_eq, LicenceStatus, PublicationUse, retrieval_status_eq, Source, not_retrieved,
  RetrievalStatus, current_publication, human_reviewed_manual, retrieved, live_retrieved, Registry,
  Origin,
}
use logistics_situation_plat.Provenance.Decision.{
  decided, qualifies_for_current_publication, publication_check, unknown_use, other_dataset,
  no_source_id, reserved_source, no_registry, unregistered_source, source_not_enabled,
  incompatible_role, no_disposition, use_not_permitted, unreviewed_licence, Refusal, permits,
  has_compatible_role, is_enabled_or_manual, find_source, is_known_use, IntendedUse, check_origin,
}
use logistics_situation_plat.Provenance.Records.{
  series_role_requirements, Family, record_label, record_family, synthetic_source_id,
  record_source_id, record_dataset, record_retrieval_status, record_origin, Record,
}
use logistics_situation_plat.Base.{
  none, mem_contains, any_of_mem, contains_mem, some_inj, contains, any_of-found, Memᴰ, truthy-some,
  some-truthy, given, given-ok, Result, raise, raise, truthy, or_else, require-ok, bind-ok, ==_iff,
  ok, String, ◌≡◌, refl, subst, ◌≢◌, ◌↔◌, ◌⊎◌, true, not, Option, some, arith, ◌==◌, string_eq,
  option_eq, nat_eq,
}

-- The origin is real and the retrieval status fits it.
abbrev pub HasRealOrigin : Record → Origin → Type 0
HasRealOrigin item origin =
    (record_origin item ≡ some origin)
    × ((origin ≡ live_retrieved) × (record_retrieval_status item ≡ some retrieved)
        ⊎ (origin ≡ human_reviewed_manual)
          × ((record_retrieval_status item ≡ some RetrievalStatus.not_applicable)
              ⊎ (record_retrieval_status item ≡ some not_retrieved)))

-- The source is enabled, or the record is a manual one and the source takes in manual records.
abbrev pub MayCollect : Source → Origin → Type 0
MayCollect source origin =
    (source.enabled ≡ true)
    ⊎ (origin ≡ human_reviewed_manual)
      × (source.access_method ≡ some AccessMethod.manual)
      × (source.manual_intake_status ≡ some allowed)

-- An observation of a series family comes from a source with one of the roles of that family.
abbrev pub HasCompatibleRole : Source → Option Family → Type 0
HasCompatibleRole source family =
    (wanted : Family)
    → family ≡ some wanted
    → (role : String) × Memᴰ role source.logistics_role
      × Memᴰ role (series_role_requirements wanted)

-- The conditions of a publishable record, with the source that stands behind it.
pub record IsPublishable (item : Record) (registry : Option Registry) (intent : IntendedUse)
    : Type 0 where
  pub known : is_known_use intent ≡ true
  pub current : record_dataset item ≡ some current_publication
  pub origin : Origin
  pub real : HasRealOrigin item origin
  pub source_id : String
  pub identified : record_source_id item ≡ some source_id
  pub not_blank : source_id ≢ ""
  pub not_reserved : source_id ≢ synthetic_source_id
  pub sources : Registry
  pub supplied : registry ≡ some sources
  pub source : Source
  pub registered : find_source sources source_id ≡ some source
  pub collects : MayCollect source origin
  pub compatible : HasCompatibleRole source (record_family item)
  pub disposition : PublicationUse
  pub disposed : source.publication_use ≡ some disposition
  pub permitted : permits disposition intent ≡ true
  pub licensed : source.licence_status ≡ some LicenceStatus.reviewed

check_origin-real :
    (item : Record) (origin : Origin)
    → check_origin (record_origin item) (record_retrieval_status item) ≡ ok origin
    → HasRealOrigin item origin
unfolding check_origin
check_origin-real item origin h = ground (
  arith,
  ==_iff (record_retrieval_status item) (some retrieved),
  ==_iff (record_retrieval_status item) (some RetrievalStatus.not_applicable),
  ==_iff (record_retrieval_status item) (some not_retrieved),
)

real-check_origin :
    (item : Record) (origin : Origin)
    → HasRealOrigin item origin
    → check_origin (record_origin item) (record_retrieval_status item) ≡ ok origin
unfolding check_origin
real-check_origin item origin h = ground (
  arith,
  ==_iff (record_retrieval_status item) (some retrieved),
  ==_iff (record_retrieval_status item) (some RetrievalStatus.not_applicable),
  ==_iff (record_retrieval_status item) (some not_retrieved),
)

reserved_free :
    (item : Record) (text : String)
    → record_source_id item ≡ some text
    → not (record_source_id item == some synthetic_source_id) ≡ true
    → text ≢ synthetic_source_id
reserved_free item text identified free =
    ground (arith, ==_iff (record_source_id item) (some synthetic_source_id))

is_enabled_or_manual_iff :
    (source : Source) (origin : Origin)
    → (is_enabled_or_manual source origin ≡ true) ↔ MayCollect source origin
unfolding is_enabled_or_manual
is_enabled_or_manual_iff source origin = ground (
  arith,
  ==_iff origin human_reviewed_manual,
  ==_iff source.access_method (some AccessMethod.manual),
  ==_iff source.manual_intake_status (some allowed),
)

has_compatible_role_iff :
    (source : Source) (family : Option Family)
    → (has_compatible_role source family ≡ true) ↔ HasCompatibleRole source family
unfolding has_compatible_role
has_compatible_role_iff source none = ((λ h wanted e. ground arith), λ h. refl)
has_compatible_role_iff source (some family) = (
  (λ h wanted e.
      let (role, m, c) =
        any_of-found (contains (series_role_requirements family)) source.logistics_role h in
      (
        role,
        m,
        subst (λ each. Memᴰ role (series_role_requirements each)) (some_inj e)
            (contains_mem (series_role_requirements family) role c),
      )),
  λ h.
      let (role, m, k) = h family refl in
      any_of_mem (contains (series_role_requirements family)) source.logistics_role m
        (mem_contains (series_role_requirements family) role k),
)

publication_check-IsPublishable :
    (item : Record) (registry : Option Registry) (intent : IntendedUse) (found : Source)
    → publication_check item registry intent ≡ ok found
    → IsPublishable item registry intent
unfolding publication_check
publication_check-IsPublishable item registry intent found h =
    let (known, h1) = require-ok (is_known_use intent) unknown_use h in
    let (current, h2) =
      require-ok (record_dataset item == some current_publication) other_dataset h1 in
    let (origin, real, h3) =
      bind-ok (check_origin (record_origin item) (record_retrieval_status item)) h2 in
    let (given_id, h4) = require-ok (truthy (record_source_id item)) no_source_id h3 in
    let (free, h5) =
      require-ok (not (record_source_id item == some synthetic_source_id)) reserved_source h4 in
    let (sources, supplied, h6) = bind-ok (given registry no_registry) h5 in
    let (source, registered, h7) =
      bind-ok (given (find_source sources (or_else (record_source_id item) "")) unregistered_source)
        h6 in
    let (enabled, h8) = require-ok (is_enabled_or_manual source origin) source_not_enabled h7 in
    let (compatible, h9) =
      require-ok (has_compatible_role source (record_family item)) incompatible_role h8 in
    let (disposition, disposed, h10) = bind-ok (given source.publication_use no_disposition) h9 in
    let (permitted, h11) = require-ok (permits disposition intent) use_not_permitted h10 in
    let (licensed, h12) =
      require-ok (source.licence_status == some LicenceStatus.reviewed) unreviewed_licence h11 in
    let (text, identified, not_blank) = truthy-some (record_source_id item) given_id in
    record {
      known = known;
      current = ground (arith, ==_iff (record_dataset item) (some current_publication));
      origin = origin;
      real = check_origin-real item origin real;
      source_id = text;
      identified = identified;
      not_blank = not_blank;
      not_reserved = reserved_free item text identified free;
      sources = sources;
      supplied = given-ok registry no_registry sources supplied;
      source = source;
      registered =
          subst (λ wanted. find_source sources (or_else wanted "") ≡ some source) identified
            (given-ok (find_source sources (or_else (record_source_id item) "")) unregistered_source
              source registered);
      collects = (is_enabled_or_manual_iff source origin).0 enabled;
      compatible = (has_compatible_role_iff source (record_family item)).0 compatible;
      disposition = disposition;
      disposed = given-ok source.publication_use no_disposition disposition disposed;
      permitted = permitted;
      licensed = ground (arith, ==_iff source.licence_status (some LicenceStatus.reviewed));
    }

free_reserved :
    (text : String)
    → text ≢ synthetic_source_id
    → not (some text == some synthetic_source_id) ≡ true
free_reserved text h = ground (arith, ==_iff (some text) (some synthetic_source_id))

IsPublishable-publication_check :
    (item : Record) (registry : Option Registry) (intent : IntendedUse)
    (p : IsPublishable item registry intent)
    → publication_check item registry intent ≡ ok p.source
unfolding publication_check
IsPublishable-publication_check item registry intent p =
    let current = (==_iff (record_dataset item) (some current_publication)).1 p.current in
    let licensed = (==_iff p.source.licence_status (some LicenceStatus.reviewed)).1 p.licensed in
    let enabled = (is_enabled_or_manual_iff p.source p.origin).1 p.collects in
    let compatible = (has_compatible_role_iff p.source (record_family item)).1 p.compatible in
    rw p.known (
      rw current (
        rw (real-check_origin item p.origin p.real) (
          rw p.identified (
            rw (some-truthy p.source_id p.not_blank) (
              rw (free_reserved p.source_id p.not_reserved) (
                rw p.supplied (
                  rw p.registered (
                    rw enabled
                      (rw compatible (rw p.disposed (rw p.permitted (rw licensed refl))))))))))))

decided-eligible :
    (label : String) (checked : Result Refusal Source)
    → (decided label checked).eligible ≡ true
    → (source : Source) × (checked ≡ ok source)
decided-eligible label (ok source) h = (source, refl)
decided-eligible label (raise refusal) h = ground arith

-- A record qualifies for current publication exactly when it meets every condition: a known use,
-- the current dataset, a real origin with a fitting retrieval status, a source id that is registered
-- and not the one reserved for fixtures, a source that is enabled or, for a manual record, has manual
-- access with an allowed intake, for an observation of a series family a role that the family admits,
-- terms that permit the use, and a reviewed licence.
pub qualifies_for_current_publication-eligible_iff :
    (item : Record) (registry : Option Registry) (intent : IntendedUse)
    → ((qualifies_for_current_publication item registry (some intent)).eligible ≡ true)
      ↔ IsPublishable item registry intent
unfolding qualifies_for_current_publication
qualifies_for_current_publication-eligible_iff item registry intent = (
  λ h.
      let (source, found) =
        decided-eligible (record_label item) (publication_check item registry intent) h in
      publication_check-IsPublishable item registry intent source found,
  λ p. rw (IsPublishable-publication_check item registry intent p) refl,
)
