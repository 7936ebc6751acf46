-- ===== src/Lib.antt =====
-- A verification library for django_atlas, the Django app that imports supplier feeds, stages their
-- products, links them to PIM's RealProducts by SKU and picks the primary source of each SKU.
--
-- The program is a set of services over Django tables. Here a table is a list of rows in key order, a
-- service function is a function from its arguments and the tables to its result and the tables, and
-- a raise is a value of `Result` (Base/Outcome.antt). Paths below are from the repository's root,
-- under src/django_atlas/. The best-effort writes that the code wraps in `except Exception` are told
-- by `Faults` whether they fail. Times are seconds, decimals are integers in units of 1/10000.
--
--   Base       shared helpers: tests, lists as query results, text equality, integers, results
--   Model      the rows of models/*.py, the enums of enums.py, JSON values
--   KindGuard  services/kind_guard.py: monitoring and enrichment sources never push
--   Links      services/product_link_service.py: links between a SKU and a source, the primary flag;
--              Consistency states the table's constraints, Preserve and Safety say that each
--              operation keeps them, Flags says what the primary flag does
--   Store      the tables and logs together; services/event_service.py `record`,
--              services/audit_service.py `log_change`, the signal of signals/definitions.py
--   Primary    services/primary_strategy_service.py `evaluate_primary_source`: Winner is the sort,
--              Decision the meaning of each result, Savings what a switch saves
--   Switching  the rest of primary_strategy_service.py: it applies what Primary decides to the links
--              of the Store; Tables (one evaluation), Override (the operator's force and reset),
--              Stable (a second evaluation), Emergency (a drop of stock), Batch
--              (tasks/primary_strategy.py, the nightly run)
--   Review     services/review_service.py: the review state machine, single (Workflow) and in bulk
--   Import     services/import_service.py: batches and their retry (Retry), one row (Rows), the
--              delisting pass (Stale), the physical values of a delta item (Physical) and who may
--              write them (Gate)
--   UrlGuard   security/url_guard.py: the guarded fetch (Fetch)
--   Mapping    services/mapping_service.py: mapping profiles and their channels (Disjoint, Profiles)
--   Modifier   services/modifier_service.py: the stock that is published
--   ChangeLog  services/change_log_service.py: the timeline of a SKU (Newest) and the acknowledgement
--              of its unseen changes (Acknowledge)
--   Transform  services/value_transformer.py: the conversions of mapped values
--   Match      services/realproduct_match_service.py (Tolerance), `_suggest_action` of
--              services/duplicate_detection_service.py (Suggestion), and the percentage they compare
--              (Difference)
--   Merge      services/realproduct_merge_service.py: two RealProducts of one EAN (Redirect)
--   Sku        validators.py, and `generate_sku` of services/pim_writer.py
--   Attach     the manual link (Attached) and unlink (Detached) of services/product_link_service.py;
--              Service is any sequence of the calls of that service that write
--   Pim        services/pim_writer.py: Lookup, Language, Attributes and Physical are the mappings of a
--              profile, Target and Chosen the RealProduct that a push writes to, Channel the push and
--              the re-push to one channel, Required what attribute mappings ensure
--   Push       services/push_service.py: Pushed (one product), Approved (all of a source), Repushed (by
--              force); Rows says what each step leaves of the product's row
--   Witnesses  a small catalogue and the theorems at it
--
-- Primary reads Links and the products; Switching writes Links through Primary's result. Push
-- calls Pim, which asks Match for a RealProduct, Transform for each value and Sku for a new SKU,
-- and writes Links by `upsert_for_push`; Attach and Merge write the same Store. The delta items of
-- Import write RealProducts of the Store; the rest of Import, Review, Mapping and ChangeLog work
-- on tables of their own.
--
-- Fuel: `retry_from` gets 10, the code's own cap on attempts; `hops` recurses on the six requests of
-- the code's `range`; `batched_from` gets the number of items, and each batch takes at least one.
-- No other loop needs any.
--
-- Parameters stand for code that is not in the repository: PIM's SKU and channel lookups, its
-- features, options, categories and languages (`Catalogue`), its number columns, the text
-- operations of Python (`TextOps`, `SkuText`: parsing and rounding a number, case, strip, split), a
-- case-insensitive text match of the database, the `save` of a RealProduct, the verdict of
-- django-lookup, the hash of a payload, the connector's `should_retry`, the keys of the languages that
-- PIM knows (`language_known`), the url parser, the resolver, the address classes, the HTTP client.
-- The stock and cost writers of a push (services/qms_writer.py, services/pricemanager_writer.py) are
-- in the repository; they are a parameter that gives the events they record and never raises.
-- A decimal quotient is exact before it is rounded to its four places. The decimals of Transform are
-- finite fractions (no NaN, no infinity); the context of Python's decimal arithmetic, which rounds to
-- 28 digits or raises, is `rounded` of `TextOps`. The nightly evaluation of a SKU may raise before or
-- after its flip (`Course` of Switching.Batch), with the writes made until then kept.
--
-- Not modelled: the bodies of the cost writers, the cost baseline and the field audit of a
-- re-push, the texts and details of events, the rest of the delta sync, the bookkeeping around a full
-- sync, feeds and scraper callbacks, the grouping of duplicates, attribute and category mappings'
-- own CRUD, the enrichment and lookup providers, the HTTP API, admin, commands and migrations. The
-- database's concurrency is not modelled: a call sees the tables alone.
pub mod Base
pub mod Model
pub mod KindGuard
pub mod Links
pub mod Store
pub mod Primary
pub mod Switching
pub mod Review
pub mod UrlGuard
pub mod Import
pub mod ChangeLog
pub mod Transform
pub mod Match
pub mod Merge
pub mod Sku
pub mod Attach
pub mod Mapping
pub mod Pim
pub mod Push
pub mod Modifier
mod Witnesses
