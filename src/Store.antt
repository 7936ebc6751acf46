-- ===== src/Store.antt =====
-- The tables that the services share, the logs that they append to, and the best-effort writes.
use entirius_django_atlas.Base.{Bool, Option, List, [], ◌∷◌, ◌++◌, String, if◌then◌else◌}
use entirius_django_atlas.Model.{
  SourceProduct, RealProduct, IntegrationEvent, SourceProductChangeLog,
}
use entirius_django_atlas.Model.Enums.{ChangeLogSource}
use entirius_django_atlas.Links.{LinkTable}

-- What subscribers of `primary_switched_signal` are sent.
pub record PrimarySwitched : Type 0 where
  pub sku : String
  pub from_source_idx : Option String
  pub to_source_idx : String
  pub reason : ChangeLogSource

pub record Store : Type 0 where
  pub links : LinkTable
  pub products : List SourceProduct
  pub real_products : List RealProduct
  pub events : List IntegrationEvent
  pub change_logs : List SourceProductChangeLog
  pub signals : List PrimarySwitched

-- Which of the writes that the code guards by `except Exception` fail during a call.
pub record Faults : Type 0 where
  pub event_fails : Bool
  pub audit_fails : Bool
  pub signal_fails : Bool

-- `event_service.record` inside `try`: a failure is logged and nothing is stored.
abbrev pub record_event : Faults → IntegrationEvent → Store → Store
record_event faults e s = record s {
  events = if faults.event_fails then s.events else s.events ++ e ∷ [];
}

-- `audit_service.log_change` inside `try`
abbrev pub log_change : Faults → SourceProductChangeLog → Store → Store
log_change faults c s = record s {
  change_logs = if faults.audit_fails then s.change_logs else s.change_logs ++ c ∷ [];
}

abbrev pub send_switched : Faults → PrimarySwitched → Store → Store
send_switched faults m s = record s {
  signals = if faults.signal_fails then s.signals else s.signals ++ m ∷ [];
}
