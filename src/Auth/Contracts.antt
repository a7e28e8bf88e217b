-- ===== src/Auth/Contracts.antt =====
-- src/auth/portal-route-contract.ts: the registry of the portal's routes.
use freeipa_admin_dashboard.Base.{
  String, Bool, true, false, ◌&&◌, Option, none, some, List, [], ◌∷◌, ◌++◌, str_eq, find,
}
use freeipa_admin_dashboard.Auth.Permissions.{
  Role, admin, Permission, directory_read, freeipa_write, freeipa_delete, xyops_run, xyops_approve,
  settings_manage, backup_export, backup_export_encrypted, backup_restore_preview,
  backup_restore_test, backup_restore_prepare, backup_restore_commit, backup_restore_cancel,
  maintenance_manage,
}

pub data Method : Type 0 where
  get post put delete : Method

pub data AuthBoundary : Type 0 where
  public local_session admin_session service_admin admin_or_service_admin : AuthBoundary

pub data Mutation : Type 0 where
  read mutation : Mutation

-- `PortalRouteContract`.
pub record Contract : Type 0 where
  pub id : String
  pub method : Method
  pub path : String
  pub owner : String
  pub auth : AuthBoundary
  pub permission : Option Permission
  pub conditional_permissions : Option (List Permission)
  pub required_role : Option Role
  pub mutation : Mutation
  pub same_origin : Bool
  pub error_owner : Option String

-- A line of the registry; no line has an `errorOwner`.
abbrev route :
    String
    → Method
    → String
    → String
    → AuthBoundary
    → Option Permission
    → Option (List Permission)
    → Option Role
    → Mutation
    → Bool
    → Contract
route i m p o a perm conditional role mu same = record {
  id = i;
  method = m;
  path = p;
  owner = o;
  auth = a;
  permission = perm;
  conditional_permissions = conditional;
  required_role = role;
  mutation = mu;
  same_origin = same;
  error_owner = none;
}

-- `left === right` on methods.
unfoldable pub is_method : Method → Method → Bool
is_method get get = true
is_method post post = true
is_method put put = true
is_method delete delete = true
is_method _ _ = false

abbrev pub health_routes : List Contract
health_routes =
    route "health.live" get "/health/live" "worker/health-contracts.ts" public none none none read
      false
    ∷ route "health.ready" get "/health/ready" "worker/health-contracts.ts" public none none none
        read false
    ∷ route "integration.health.compat" get "/api/integrations/health" "worker/health-contracts.ts"
        public none none none read false
    ∷ route "schema.status" get "/api/schema/status" "worker/schema-migrations-entry.ts"
        service_admin none none none read false
    ∷ []

abbrev pub auth_routes : List Contract
auth_routes =
    route "auth.session" get "/api/auth/session" "worker/local-secure-entry.ts" public none none
      none read false
    ∷ route "auth.login" post "/api/auth/login" "worker/local-secure-entry.ts" public none none none
        mutation false
    ∷ route "auth.logout" post "/api/auth/logout" "worker/local-secure-entry.ts" local_session none
        none none mutation true
    ∷ route "auth.users.list" get "/api/auth/users" "worker/local-secure-entry.ts" admin_session
        none none none read false
    ∷ route "auth.users.create" post "/api/auth/users" "worker/local-secure-entry.ts" admin_session
        none none none mutation true
    ∷ route "auth.users.update" put "/api/auth/users/:userId" "worker/local-secure-entry.ts"
        admin_session none none none mutation true
    ∷ route "auth.users.delete" delete "/api/auth/users/:userId" "worker/local-secure-entry.ts"
        admin_session none none none mutation true
    ∷ route "auth.users.password-reset" post "/api/auth/users/:userId/password"
        "worker/local-secure-entry.ts" admin_session none none none mutation true
    ∷ route "auth.users.sessions-revoke" delete "/api/auth/users/:userId/sessions"
        "worker/local-secure-entry.ts" admin_session none none none mutation true
    ∷ []

abbrev pub settings_routes : List Contract
settings_routes =
    route "settings.read" get "/api/integrations/settings" "worker/settings-http.ts"
      admin_or_service_admin (some settings_manage) none none read false
    ∷ route "settings.update" put "/api/integrations/settings" "worker/settings-http.ts"
        admin_or_service_admin (some settings_manage) none none mutation true
    ∷ route "settings.test" post "/api/integrations/settings/test" "worker/settings-http.ts"
        admin_or_service_admin (some settings_manage) none none mutation true
    ∷ route "settings.effective" get "/api/integrations/settings/effective"
        "worker/settings-lifecycle-entry.ts" admin_or_service_admin (some settings_manage) none none
        read false
    ∷ route "settings.drafts.create" post "/api/integrations/settings/drafts"
        "worker/settings-lifecycle-entry.ts" admin_or_service_admin (some settings_manage) none none
        mutation true
    ∷ route "settings.drafts.read" get "/api/integrations/settings/drafts/:draftId"
        "worker/settings-lifecycle-entry.ts" admin_or_service_admin (some settings_manage) none none
        read false
    ∷ route "settings.drafts.validate" post "/api/integrations/settings/drafts/:draftId/validate"
        "worker/settings-lifecycle-entry.ts" admin_or_service_admin (some settings_manage) none none
        mutation true
    ∷ route "settings.drafts.apply" post "/api/integrations/settings/drafts/:draftId/apply"
        "worker/settings-lifecycle-entry.ts" admin_or_service_admin (some settings_manage) none none
        mutation true
    ∷ route "settings.drafts.cancel" post "/api/integrations/settings/drafts/:draftId/cancel"
        "worker/settings-lifecycle-entry.ts" admin_or_service_admin (some settings_manage) none none
        mutation true
    ∷ route "settings.revisions.list" get "/api/integrations/settings/revisions"
        "worker/settings-lifecycle-entry.ts" admin_or_service_admin (some settings_manage) none none
        read false
    ∷ route "settings.revisions.read" get "/api/integrations/settings/revisions/:revision"
        "worker/settings-lifecycle-entry.ts" admin_or_service_admin (some settings_manage) none none
        read false
    ∷ []

abbrev pub freeipa_routes : List Contract
freeipa_routes =
    route "freeipa.users.list" get "/api/integrations/users" "worker/freeipa-http-entry.ts"
      local_session (some directory_read) none none read false
    ∷ route "freeipa.users.export" get "/api/integrations/users/export.csv"
        "worker/freeipa-http-entry.ts" local_session (some directory_read) none none read false
    ∷ route "freeipa.groups.list" get "/api/integrations/groups" "worker/freeipa-http-entry.ts"
        local_session (some directory_read) none none read false
    ∷ route "freeipa.groups.members" get "/api/integrations/groups/members"
        "worker/freeipa-http-entry.ts" local_session (some directory_read) none none read false
    ∷ route "freeipa.actions" post "/api/integrations/freeipa/actions"
        "worker/freeipa-http-entry.ts" local_session (some freeipa_write)
        (some (freeipa_delete ∷ [])) none mutation false
    ∷ route "freeipa.bulk" post "/api/integrations/freeipa/bulk" "worker/freeipa-http-entry.ts"
        local_session (some freeipa_write) none none mutation false
    ∷ []

abbrev pub operations_routes : List Contract
operations_routes =
    route "integration.status" get "/api/integrations/status" "worker/integration-status-http.ts"
      local_session none none none read false
    ∷ route "integration.audit" get "/api/integrations/audit" "worker/integration-audit-http.ts"
        admin_or_service_admin (some settings_manage) none none read false
    ∷ route "xyops.catalog.read" get "/api/integrations/catalog" "worker/operations-http-entry.ts"
        local_session none none none read false
    ∷ route "xyops.catalog.history" get "/api/integrations/catalog/history"
        "worker/operations-http-entry.ts" local_session none none none read false
    ∷ route "xyops.catalog.options" get "/api/integrations/catalog/options"
        "worker/operations-http-entry.ts" local_session none none none read false
    ∷ route "xyops.catalog.run" post "/api/integrations/catalog/run"
        "worker/operations-http-entry.ts" local_session (some xyops_run) none none mutation false
    ∷ route "xyops.runs.list" get "/api/integrations/runs" "worker/operations-http-entry.ts"
        local_session none none none read false
    ∷ route "xyops.runs.file" get "/api/integrations/runs/:runId/files/:fileId"
        "worker/operations-http-entry.ts" local_session (some directory_read) none none read false
    ∷ route "xyops.runs.cancel" post "/api/integrations/runs/:runId/cancel"
        "worker/operations-http-entry.ts" local_session (some xyops_run) none none mutation false
    ∷ route "xyops.runs.rerun" post "/api/integrations/runs/:runId/rerun"
        "worker/operations-http-entry.ts" local_session (some xyops_run) none none mutation false
    ∷ route "xyops.approvals.list" get "/api/integrations/approvals"
        "worker/operations-http-entry.ts" local_session (some directory_read) none none read false
    ∷ route "xyops.approvals.approve" post "/api/integrations/approvals/:approvalId/approve"
        "worker/operations-http-entry.ts" local_session (some xyops_approve) none none mutation
        false
    ∷ route "xyops.approvals.reject" post "/api/integrations/approvals/:approvalId/reject"
        "worker/operations-http-entry.ts" local_session (some xyops_approve) none none mutation
        false
    ∷ route "xyops.approvals.cancel" post "/api/integrations/approvals/:approvalId/cancel"
        "worker/operations-http-entry.ts" local_session (some xyops_run) none none mutation false
    ∷ route "xyops.approvals.execute" post "/api/integrations/approvals/:approvalId/execute"
        "worker/operations-http-entry.ts" local_session (some xyops_run) none none mutation false
    ∷ route "xyops.notifications.list" get "/api/integrations/notifications"
        "worker/operations-http-entry.ts" local_session (some directory_read) none none read false
    ∷ route "xyops.notifications.read" post "/api/integrations/notifications/read"
        "worker/operations-http-entry.ts" local_session (some directory_read) none none mutation
        false
    ∷ []

abbrev pub xyops_admin_routes : List Contract
xyops_admin_routes =
    route "xyops.routes.read" get "/api/integrations/routes" "worker/xyops-admin-http.ts"
      admin_or_service_admin (some settings_manage) none none read false
    ∷ route "xyops.routes.update" put "/api/integrations/routes" "worker/xyops-admin-http.ts"
        admin_or_service_admin (some settings_manage) none none mutation true
    ∷ route "xyops.presentation.read" get "/api/integrations/catalog/presentation"
        "worker/xyops-admin-http.ts" admin_or_service_admin (some settings_manage) none none read
        false
    ∷ route "xyops.presentation.update" put "/api/integrations/catalog/presentation"
        "worker/xyops-admin-http.ts" admin_or_service_admin (some settings_manage) none none
        mutation true
    ∷ route "xyops.catalog-policies.read" get "/api/integrations/catalog/policies"
        "worker/xyops-admin-http.ts" admin_or_service_admin (some settings_manage) none none read
        false
    ∷ route "xyops.catalog-policies.update" put "/api/integrations/catalog/policies"
        "worker/xyops-admin-http.ts" admin_or_service_admin (some settings_manage) none none
        mutation true
    ∷ route "xyops.approval-policies.read" get "/api/integrations/approval/policies"
        "worker/xyops-admin-http.ts" admin_or_service_admin (some settings_manage) none none read
        false
    ∷ route "xyops.approval-policies.update" put "/api/integrations/approval/policies"
        "worker/xyops-admin-http.ts" admin_or_service_admin (some settings_manage) none none
        mutation true
    ∷ route "xyops.catalog-sync.read" get "/api/integrations/catalog/sync" "worker/secure-entry.ts"
        admin_or_service_admin none none (some admin) read false
    ∷ route "xyops.catalog-sync.run" post "/api/integrations/catalog/sync" "worker/secure-entry.ts"
        admin_or_service_admin none none (some admin) mutation true
    ∷ []

abbrev pub backup_routes : List Contract
backup_routes =
    route "backup.export.sanitized" post "/api/admin/backups/export" "worker/backup-http-entry.ts"
      local_session (some backup_export) none none mutation false
    ∷ route "backup.export.encrypted" post "/api/admin/backups/export/encrypted"
        "worker/backup-encrypted-root-entry.ts" admin_or_service_admin
        (some backup_export_encrypted) none none mutation true
    ∷ route "backup.preview.sanitized" post "/api/admin/backups/import/preview"
        "worker/backup-import-preview-root-entry.ts" admin_or_service_admin
        (some backup_restore_preview) none none mutation true
    ∷ route "backup.preview.encrypted" post "/api/admin/backups/import/encrypted/preview"
        "worker/backup-encrypted-root-entry.ts" admin_or_service_admin (some backup_restore_preview)
        none none mutation true
    ∷ route "backup.restore.test" post "/api/admin/backups/import/encrypted/test-restore"
        "worker/backup-encrypted-root-entry.ts" admin_or_service_admin (some backup_restore_test)
        none none mutation true
    ∷ route "backup.restore.prepare" post "/api/admin/backups/import/encrypted/prepare-commit"
        "worker/backup-selective-restore-dispatch.ts" admin_or_service_admin
        (some backup_restore_prepare) none (some admin) mutation true
    ∷ route "backup.restore.commit" post "/api/admin/backups/import/encrypted/commit"
        "worker/backup-selective-restore-dispatch.ts" admin_or_service_admin
        (some backup_restore_commit) none (some admin) mutation true
    ∷ route "backup.restore.cancel" post "/api/admin/backups/import/encrypted/cancel"
        "worker/backup-selective-restore-dispatch.ts" admin_or_service_admin
        (some backup_restore_cancel) none (some admin) mutation true
    ∷ []

abbrev pub storage_routes : List Contract
storage_routes =
    route "storage.status" get "/api/admin/storage/status" "worker/storage-status-entry.ts"
      admin_or_service_admin none none (some admin) read false
    ∷ route "storage.integrity" post "/api/admin/storage/integrity/check"
        "worker/storage-integrity-entry.ts" admin_or_service_admin none none (some admin) mutation
        true
    ∷ route "storage.migrations.preflight" post "/api/admin/storage/migrations/preflight"
        "worker/storage-migration-preflight-entry.ts" admin_or_service_admin none none (some admin)
        mutation true
    ∷ route "storage.migrations.apply" post "/api/admin/storage/migrations/apply"
        "worker/storage-migration-apply-entry.ts" admin_or_service_admin none none (some admin)
        mutation true
    ∷ route "storage.migrations.apply-status" get "/api/admin/storage/migrations/apply/status"
        "worker/storage-migration-apply-entry.ts" admin_or_service_admin none none (some admin) read
        false
    ∷ route "storage.migrations.reconcile" post "/api/admin/storage/migrations/apply/reconcile"
        "worker/storage-migration-apply-entry.ts" admin_or_service_admin none none (some admin)
        mutation true
    ∷ []

abbrev pub maintenance_routes : List Contract
maintenance_routes =
    route "maintenance.status" get "/api/admin/maintenance/status"
      "worker/maintenance-control-entry.ts" admin_or_service_admin (some maintenance_manage) none
      (some admin) read false
    ∷ route "maintenance.prepare" post "/api/admin/maintenance/prepare"
        "worker/maintenance-control-entry.ts" admin_or_service_admin (some maintenance_manage) none
        (some admin) mutation true
    ∷ route "maintenance.enter" post "/api/admin/maintenance/enter"
        "worker/maintenance-control-entry.ts" admin_or_service_admin (some maintenance_manage) none
        (some admin) mutation true
    ∷ route "maintenance.verification.start" post "/api/admin/maintenance/verification/start"
        "worker/maintenance-control-entry.ts" admin_or_service_admin (some maintenance_manage) none
        (some admin) mutation true
    ∷ route "maintenance.verification.smoke" post "/api/admin/maintenance/verification/smoke"
        "worker/maintenance-verification-smoke-entry.ts" service_admin none none (some admin)
        mutation true
    ∷ route "maintenance.exit" post "/api/admin/maintenance/exit"
        "worker/maintenance-control-entry.ts" admin_or_service_admin (some maintenance_manage) none
        (some admin) mutation true
    ∷ route "maintenance.complete" post "/api/admin/maintenance/complete"
        "worker/maintenance-control-entry.ts" admin_or_service_admin (some maintenance_manage) none
        (some admin) mutation true
    ∷ route "maintenance.cancel" post "/api/admin/maintenance/cancel"
        "worker/maintenance-control-entry.ts" admin_or_service_admin (some maintenance_manage) none
        (some admin) mutation true
    ∷ []

-- `portalRouteContracts`, in the order of the file.
unfoldable pub portal_route_contracts : List Contract
portal_route_contracts =
    health_routes
    ++ (auth_routes
        ++ (settings_routes
            ++ (freeipa_routes
                ++ (operations_routes
                    ++ (xyops_admin_routes
                        ++ (backup_routes ++ (storage_routes ++ (maintenance_routes))))))))

unfoldable pub find_portal_route_contract : Method → String → Option Contract
unfolding portal_route_contracts is_method
find_portal_route_contract m p =
    find (λ r. is_method r.method m && str_eq r.path p) portal_route_contracts
