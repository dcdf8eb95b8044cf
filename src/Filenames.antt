-- ===== src/Filenames.antt =====
-- Attachment names (backend/src/fetchnow/downloads/filename.py). A text is the list of its code
-- points, a byte string the list of its bytes.
pub mod Utf8
pub mod Rfc8187
pub mod Stem
pub mod Disposition
