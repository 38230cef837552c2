-- ===== src/BranchRules/Endpoints.antt =====
-- What one endpoint's answer can establish.
use gh_report.Prelude.{ℕ, ◌≡◌, ◌↔◌, Bool, Option, none, some, List, arith}
use gh_report.Checks.History.{HistorySignals}
use gh_report.Api.{Json, ApiOutcome}
use gh_report.BranchRules.{
  AdminAccess, admin, confirmed_absent, classify_failure, classify_endpoint,
}

-- A failed call establishes absence exactly when it is a 404 and the caller is known to be an admin
-- of the repository, and the absence carries that status.
pub absent_iff_admin_404 :
    (code h : Option ℕ) (access : AdminAccess) (retryable : Bool)
    → (classify_failure code access retryable ≡ confirmed_absent h)
      ↔ ((code ≡ some 404) × (access ≡ admin) × (h ≡ some 404))
unfolding classify_failure
absent_iff_admin_404 none h access retryable = (ground arith, ground arith)
absent_iff_admin_404 (some c) h access retryable = (ground arith, ground arith)

-- the same of an endpoint's whole answer
pub endpoint_absent :
    (J : Json) (o : ApiOutcome J.Value) (parse : Option J.Value → Option (List HistorySignals))
    (access : AdminAccess) (h : Option ℕ)
    → classify_endpoint J o parse access ≡ confirmed_absent h
    → (access ≡ admin) × (h ≡ some 404)
unfolding classify_endpoint
endpoint_absent J (ApiOutcome.success code payload headers truncated) parse access h e =
    ground arith
endpoint_absent J (ApiOutcome.failure code error retryable) parse access h e =
    let (_, ea, eh) = (absent_iff_admin_404 code h access retryable).0 e in (ea, eh)
