-- ===== src/Partners/Repository/Shared.antt =====
-- `list_members` of organizations/repository.py and `log_event` of core/audit_log.py
use reliastra_backend.Prelude.{ℕ, String, Option, not, ◌&&◌, List, [], ◌∷◌, ◌++◌, ◌==◌, select}
use reliastra_backend.Partners.Model.{OrganizationMember, Db}

unfoldable pub list_members : Db → ℕ → List OrganizationMember
list_members db oid = select (λ m. (m.org_id == oid) && not m.is_deleted) db.members

-- core/audit_log.py, `AuditLogService.log_event`
unfoldable pub log_event : String → Option ℕ → ℕ → Db → Db
log_event event_type user_id resource_id db = record db {
  audit =
      db.audit
      ++ record { event_type = event_type; user_id = user_id; resource_id = resource_id } ∷ [];
}
