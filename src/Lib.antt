-- ===== src/Lib.antt =====
-- The analysis core of the logistics situation platform: from source-backed claims to the situation
-- of a transport mode. Every step decides what may be published and how strongly it may be said.
--
-- The program's parts and the files that model them:
--   Evidence    analysis/claim_evidence_adapter.py: the freshness clock of a document, the authority
--               of its publisher, the item grade A to D of a claim, and the projection of a claim
--               and its document to an event's evidence record.
--   Grading     analysis/grading.py: the eligible claims Q(E) of an event, its evidence grade with
--               the caps of contradiction and freshness, the check of manual overrides, and the
--               situation state that is proposed for the event.
--   Provenance  analysis/provenance.py, qualifies_for_current_publication: the one decision whether
--               a record may carry current intelligence; series_homogeneity_problems.
--   Acquisition analysis/provenance.py: the chain of collection runs from a run that reconfirms to the
--               one that governs it (resolve_governing_run), the binding of a record to its run or
--               to its review event, and the checks of a run and its manifest.
--   Claims      analysis/claims.py: the checks on claims, documents and events.
--   Attachment  analysis/attachment.py: the gate and the proposal of the event that a claim joins;
--               _normalize_token of collectors/event_identity.py.
--   Validation  analysis/situation_validation.py: the rules on stored records, also against what
--               Grading, Situations and Evidence compute.
--   Http        collectors/http_client.py: the attempts of ResilientHttpClient.get.
--   Activity    analysis/events.py: transmission chains, whether an event is active at a cutoff, and
--               the direction of an event-driven domain.
--   Situations  analysis/situations.py: Gate 0, the four rules, confidence, composition and coverage
--               of a mode's situation; Situations/Lanes is the lane index of analysis/reference.py.
--   Health      collectors/source_health.py: the health of a source, the coverage of its
--               capabilities, and the snapshot of a registry.
--   Thresholds  analysis/thresholds.py, combine_directions: several directions rolled into one.
--   Model       the records and vocabularies of the JSON documents (schemas/), shared by all.
--   Base        Boolean tests, equality as an interface, list loops, dictionaries and results.
-- Situations calls Activity and Grading, Activity calls Provenance, and Grading calls Evidence; the
-- calls are composed as in the code, on the same arguments. Acquisition reads the records of Provenance,
-- and Claims, Attachment and Validation check what is stored on the vocabulary of Grading.
--
-- Reading rules. An optional key is an Option, and a key that is absent reads like one that is null;
-- a dictionary by id is an association list of which the first entry counts. A text that is compared
-- with a fixed vocabulary is a data type (Model). Times are microseconds from one midnight, which is
-- the resolution of Python's datetime, and ages are compared in microseconds, not in floats. A text
-- of a date carries what datetime.fromisoformat reads from it, `none` standing for its ValueError.
-- Messages are constructors that keep the values the message quotes. A chain of early returns is a
-- do block in Result, and a loop is recursion on its list. Only the walk along supersedes_run_id has
-- fuel, two rounds more than there are runs; a walk that repeats no run takes fewer. The attempts of
-- a request are recursion on their number. Lists that the code builds as sorted sets stand without
-- repetition in the order in which they were found. Python's text functions, the digest of a manifest,
-- the replies of the network and the random part of a delay are parameters.
--
-- Not modelled: reading and writing of files, the feed adapters, the scripts and the dashboard, JSON
-- Schema validation and hashing. Of collectors/http_client.py only the retry loop is modelled, the
-- rest being network I/O; of analysis/provenance.py the record index, the summary of
-- acquisitions, publication_use_problems and provenance_problems are left out, of analysis/events.py the clustering and validate_event, of
-- analysis/thresholds.py the numeric rules, which compare floats, and of the situation's record the
-- texts that only format its arguments.
pub mod Base
pub mod Model
pub mod Evidence
pub mod Grading
pub mod Provenance
pub mod Activity
pub mod Situations
pub mod Health
pub mod Thresholds
pub mod Acquisition
pub mod Claims
pub mod Attachment
pub mod Validation
pub mod Http
mod Tests
