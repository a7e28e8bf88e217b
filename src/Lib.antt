-- ===== src/Lib.antt =====
-- A model of the core of the FreeIPA admin dashboard, a portal of TypeScript workers over a D1
-- database, and the theorems that make its parts correct.
--
-- Requests that migrate the storage come first; they hold the migration lock and keep a row of their
-- progress. The others pass the maintenance gate, then guards whose order depends on the route, then
-- the handler. The files follow those parts, with paths from the repository's root:
--
-- Base: tests, lists, texts, results with an error, values of JSON, the functions of the language
--   as one argument, and the comparison in constant time that several files of the program write
--   out by hand.
-- Maintenance: src/recovery/maintenance/maintenance-mode.ts (Mode: states, checks, views),
--   src/recovery/maintenance/maintenance-repository.ts (Rows: the row and its checks;
--   Transitions: the five transitions, each an UPDATE in a batch; Preparation:
--   prepareMaintenance) and
--   worker/maintenance-mode-gate.ts (Gate). Secrets, Ownership, Operations, Prepare and Report are
--   proofs.
-- Auth: src/auth/portal-permissions.ts (Permissions), portal-route-contract.ts (Contracts, all 79
--   lines of the registry), portal-route-router.ts (Router) and portal-route-security-plan.ts
--   (Plan: a list that describes the guards of a route and that no worker runs). Order, Matching and Registry are proofs about the sorted routes and the search.
-- Catalog: src/operations/catalog/catalog-policies.ts (Policies: the check and the decision;
--   Store: reading and saving). Decision, Checked and Sources are proofs.
-- Migration: src/storage/migration/operation/storage-migration-operation.ts (Operation),
--   storage-migration-operation-repository.ts (Repository) and db/portal-migration-lock.ts (Lock).
--   Progress, Readable and Kept are proofs about the row of a migration.
-- Login: login-rate-limit.ts (Limit: the counts of failed logins and the decisions); Cooldown is
--   proofs.
-- Approvals: src/operations/approvals/approval-gates.ts (Policy: the check of a policy and what it
--   requires; Store: reading and saving it; Spec: what an approval keeps of an operation; Table:
--   the rows and the statements; Gates: the handlers). Requirement, Sound, Claims, Backing,
--   Handlers, Claimed, Actions and Secrets are proofs.
-- Directory: src/freeipa/freeipa-user-query.ts (Users) and freeipa-group-member-query.ts (Members),
--   with what they share in Pages. Joined and Listing are proofs.
-- Conditions: src/automation/field-conditions.ts (Condition: the conditions on the fields of an
--   operation and whether they hold; Normalize: reading one out of any value). Bounds and Locality
--   are proofs.
-- Restore: src/backup/restore (Domains: backup-selective-restore-policy.ts and
--   backup-restore-selection.ts over the domains of src/backup/backup-manifest.ts; Stage
--   and Repository: backup-restore-stage-repository.ts). Closed, Policy, Kept and Cancelled are proofs.
-- The module Tests of each tree runs the definitions at concrete inputs.
--
-- A function of the program is the definition with its name in snake case. What throws is a
-- `Result` with the error's code and status; a handler that changes the database takes the database
-- and returns it beside its result. A statement of SQL is a function on the one row that its WHERE
-- clause names, with the count of rows that it changed; a batch is one transaction. What other
-- workers do between two statements is a function that the definition takes and that the theorems
-- leave open, unless they say what it leaves alone.
--
-- Arguments of the definitions, because they are the language's or the platform's: SHA-256, random
-- identifiers, the clock, JSON.parse and JSON.stringify, trim, toLowerCase, slice, the text of a
-- number and the number of a text, the collator, and the sort of texts. The stable sorts of the
-- routes and of the directory are written out. A number that the program checks to be a safe
-- integer is a natural number, and the bound 2^53 - 1 is tested where the source tests it. No definition runs on fuel but the attempts of the
-- lock and the levels of a condition, whose counts are the source's own (20 and 8 at most).
--
-- Not modelled: HTTP responses beyond which one is given, the audit statements that callers add to
-- a batch (an argument), labels and descriptions for the user interface, and the parts of the
-- portal that are not named above: the subject of a login request, sessions and passwords,
-- the list of approvals, calls of FreeIPA and of XYOps, the rest of backup and restore, health
-- checks, settings, the pages and the scripts.
pub mod Base
pub mod Maintenance
pub mod Auth
pub mod Catalog
pub mod Migration
pub mod Login
pub mod Approvals
pub mod Directory
pub mod Conditions
pub mod Restore
