-- ===== src/Report/Review.antt =====
-- internal/report/review.go: the summary that is derived from the retained evidence.
pub mod Coverage
pub mod Summary
pub mod Derive
