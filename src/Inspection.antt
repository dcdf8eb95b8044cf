-- ===== src/Inspection.antt =====
-- Media inspection (backend/src/fetchnow/media_inspection/). A text is the list of its code points.
pub mod Formats
pub mod Mux
