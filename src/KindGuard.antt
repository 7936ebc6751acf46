-- ===== src/KindGuard.antt =====
-- The kind gate of django_atlas/services/kind_guard.py.
use entirius_django_atlas.Base.{Bool, true, false}
use entirius_django_atlas.Base.Outcome.{Result, raise_if}
use entirius_django_atlas.Model.{Source}
use entirius_django_atlas.Model.Enums.{SourceKind}

-- `PUSH_BLOCKED_KINDS`
abbrev pub push_blocked_kind : SourceKind → Bool
push_blocked_kind SourceKind.procurement = false
push_blocked_kind SourceKind.monitoring = true
push_blocked_kind SourceKind.enrichment = true

abbrev pub is_push_blocked : Source → Bool
is_push_blocked source = push_blocked_kind source.kind

abbrev pub assert_push_allowed : {E : Type 0} → Source → E → Result E (Unit {0})
assert_push_allowed source e = raise_if (is_push_blocked source) e
