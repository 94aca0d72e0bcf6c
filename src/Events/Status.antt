-- ===== src/Events/Status.antt =====
-- The status code of an error (service/internal/server/errors.go, `statusOf`), where it is not the web
-- framework's own, and of the errors with which the store's `Advance` fails.
use hedge_arkade.Common.{if◌then◌else◌, ℕ}
use hedge_arkade.Domain.State.{State}
use hedge_arkade.Store.Rows.{Store}
use hedge_arkade.Domain.Records.{
  AppError, lost, not_found, name_taken, not_allowed, invalid, not_yet,
}

unfoldable pub status_of : AppError → ℕ
status_of not_found = 404
status_of name_taken = 409
status_of not_allowed = 403
status_of invalid = 400
status_of not_yet = 409
status_of e = if lost e then 409 else 500
