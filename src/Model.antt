-- ===== src/Model.antt =====
-- pkg/model: the label sets of profiles.
pub mod Labels
