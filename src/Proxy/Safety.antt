-- ===== src/Proxy/Safety.antt =====
-- Admission and routing together: what the checks of `authorize_request` mean for the plan that
-- `plan_request` makes of the same request.
pub mod Routes
pub mod Verdicts
pub mod Policy
pub mod Listing
