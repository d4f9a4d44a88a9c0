-- ===== src/V3Router.antt =====
-- cluster/router/v3router: the routers of the mesh rules. Floats and regular expressions are
-- parameters.
pub mod Judger
pub mod Rule
pub mod Weights
pub mod Allowed
pub mod Attachments
