-- ===== src/Deployments.antt =====
-- app/deployments.py, and the rows of app/orm.py that it reads: which upstream a request for a model
-- goes to, and which models a harness is offered.
pub mod Target
pub mod Registry
pub mod Wires
pub mod Resolve
pub mod Listing
pub mod Hidden
pub mod Offered
pub mod Shapes
mod Tests
